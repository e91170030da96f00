-- ===== src/Util/StringUtil/Extending/Ending.antt =====
-- extend_any ends.
use network_core.Common.{
  ℕ, zero, suc, ◌+◌, ◌-◌, ◌<◌, ◌≤◌, ◌≡◌, refl, sym, ap, subst, Bool, true, false, Option, none,
  some, List, [], ◌∷◌, ◌++◌, ltb, if◌then◌else◌, length, take, drop, length-append, length-take,
  length-drop, arith, Bool-cases, inl, inr,
}
use network_core.Util.StringUtil.Extending.{
  starts, shift, find_in, find_from, between, replaced, at_end, at_begin, internal_extend,
  extend_any_loop, extend_any,
}

-- what a search has found
data Found (mark : List ℕ) (offset : ℕ) (s : List ℕ) : Option ℕ → Type 0 where
  nowhere : Found mark offset s none
  somewhere : {p : ℕ} → offset ≤ p → p + length mark ≤ length s → Found mark offset s (some p)

starts-length : (mark s : List ℕ) → starts mark s ≡ true → length mark ≤ length s
unfolding starts
starts-length [] s h = omega arith
starts-length (c ∷ mark) [] h = absurd (ground (arith, h))
starts-length (c ∷ mark) (d ∷ s) h = omega (arith, starts-length mark s (ground (arith, h)))

Found-shift :
    (mark s t : List ℕ) (k : ℕ) (o : Option ℕ)
    → length s + k ≤ length t
    → Found mark 0 s o
    → Found mark k t (shift k o)
unfolding shift
Found-shift mark s t k none l nowhere = nowhere
Found-shift mark s t k (some p) l (somewhere a b) = somewhere (omega arith) (omega (arith, l, b))

Found-later : (mark s : List ℕ) (o : Option ℕ) → Found mark 1 s o → Found mark 0 s o
Found-later mark s none nowhere = nowhere
Found-later mark s (some p) (somewhere a b) = somewhere (omega arith) b

find_in-Found : (mark s : List ℕ) → Found mark 0 s (find_in mark s)
unfolding find_in
find_in-Found mark [] = elim (Bool-cases (starts mark [])) [
  | inl h ↦
      subst (λ (b : Bool). Found mark 0 [] (if b then some 0 else none)) (sym h)
        (somewhere (omega arith) (omega (arith, starts-length mark [] h)))
  | inr h ↦ subst (λ (b : Bool). Found mark 0 [] (if b then some 0 else none)) (sym h) nowhere
]
find_in-Found mark (c ∷ s) =
    let choose : Bool → Option ℕ = λ b. if b then some 0 else shift 1 (find_in mark s) in
    elim (Bool-cases (starts mark (c ∷ s))) [
      | inl h ↦
          subst (Found mark 0 (c ∷ s)) (sym (ap choose h))
            (somewhere (omega arith) (omega (arith, starts-length mark (c ∷ s) h)))
      | inr h ↦ subst (Found mark 0 (c ∷ s)) (sym (ap choose h)) (
          Found-later mark (c ∷ s) _
            (Found-shift mark s (c ∷ s) 1 (find_in mark s) (omega arith) (find_in-Found mark s)))
    ]

find_from-Found :
    (mark : List ℕ) (offset : ℕ) (s : List ℕ) → Found mark offset s (find_from mark offset s)
unfolding find_from
find_from-Found mark offset s =
    let found = shift offset (find_in mark (drop offset s)) in
    let choose : Bool → Option ℕ = λ b. if b then none else found in
    elim (Bool-cases (ltb (length s) offset)) [
      | inl h ↦ subst (Found mark offset s) (sym (ap choose h)) nowhere
      | inr h ↦ subst (Found mark offset s) (sym (ap choose h)) (
          Found-shift mark (drop offset s) s offset (find_in mark (drop offset s))
            (ground (arith, length-drop offset s, h)) (find_in-Found mark (drop offset s)))
    ]

module _ (begin_extend end_extend : List ℕ) (extend_func : List ℕ → Option (List ℕ))
    (large : 1 ≤ length end_extend) where
  -- less is left behind the offset
  data Shorter (s : List ℕ) (offset : ℕ) (t : List ℕ) : Option ℕ → Type 0 where
    at_npos : Shorter s offset t none
    closer : {o : ℕ} → length t - o < length s - offset → Shorter s offset t (some o)

  replaced-Shorter :
      (s : List ℕ) (offset pos end_pos : ℕ) (prop : Option (List ℕ))
      → offset ≤ pos
      → pos ≤ end_pos
      → end_pos + length end_extend ≤ length s
      → Shorter s offset
          (replaced begin_extend end_extend extend_func s pos end_pos prop).str
          (replaced begin_extend end_extend extend_func s pos end_pos prop).offset
  unfolding replaced
  replaced-Shorter s offset pos end_pos none a b c = closer (omega (arith, a, b, c, large))
  replaced-Shorter s offset pos end_pos (some prop) a b c = closer (
      omega (
        arith,
        a,
        b,
        c,
        large,
        length-append (take pos s) (prop ++ drop (end_pos + length end_extend) s),
        length-append prop (drop (end_pos + length end_extend) s),
        length-take pos s,
        length-drop (end_pos + length end_extend) s,
      ))

  at_end-Shorter :
      (s : List ℕ) (offset pos : ℕ) (e : Option ℕ)
      → offset ≤ pos
      → Found end_extend pos s e
      → Shorter s offset
          (at_end begin_extend end_extend extend_func s pos e).str
          (at_end begin_extend end_extend extend_func s pos e).offset
  unfolding at_end
  at_end-Shorter s offset pos none a nowhere = at_npos
  at_end-Shorter s offset pos (some e) a (somewhere b c) =
      replaced-Shorter s offset pos e (extend_func (between (pos + length begin_extend) e s)) a b c

  at_begin-Shorter :
      (s : List ℕ) (offset : ℕ) (b : Option ℕ)
      → Found begin_extend offset s b
      → Shorter s offset
          (at_begin begin_extend end_extend extend_func s b).str
          (at_begin begin_extend end_extend extend_func s b).offset
  unfolding at_begin
  at_begin-Shorter s offset none nowhere = at_npos
  at_begin-Shorter s offset (some pos) (somewhere a b) =
      at_end-Shorter s offset pos (find_from end_extend pos s) a (find_from-Found end_extend pos s)

  internal_extend-Shorter :
      (s : List ℕ) (offset : ℕ)
      → Shorter s offset
          (internal_extend begin_extend end_extend extend_func s offset).str
          (internal_extend begin_extend end_extend extend_func s offset).offset
  unfolding internal_extend
  internal_extend-Shorter s offset =
      at_begin-Shorter s offset (find_from begin_extend offset s)
        (find_from-Found begin_extend offset s)

  Ends : List ℕ → Option ℕ → ℕ → Bool → Type 0
  Ends s o fuel any =
      (r : List ℕ × Bool) × (extend_any_loop begin_extend end_extend extend_func fuel s o any
        ≡ some r)

  after_turn :
      (fuel : ℕ) (s : List ℕ) (offset : ℕ) (t : List ℕ) (o : Option ℕ) (any : Bool)
      → length s - offset < suc fuel
      → Shorter s offset t o
      → ((o' : ℕ) → length t - o' < fuel → Ends t (some o') fuel any)
      → Ends t o fuel any
  unfolding extend_any_loop Ends
  after_turn fuel s offset t none any l at_npos go = ((t, any), refl)
  after_turn fuel s offset t (some o) any l (closer c) go = go o (omega (arith, l, c))

  loop-Ends :
      (fuel : ℕ) (s : List ℕ) (offset : ℕ) (any : Bool)
      → length s - offset < fuel
      → Ends s (some offset) fuel any
  unfolding extend_any_loop Ends
  loop-Ends zero s offset any l = absurd (omega (arith, l))
  loop-Ends (suc fuel) s offset any l =
      let r = internal_extend begin_extend end_extend extend_func s offset in
      let now = if r.ok then true else any in
      after_turn fuel s offset r.str r.offset now l (internal_extend-Shorter s offset)
        (λ o h. loop-Ends fuel r.str o now h)

  -- With an end mark that is not empty, extend_any ends, whatever the begin mark, the string and the
  -- function are: as many turns as the string has characters, and one more, are enough.
  pub extend_any-ends :
      (s : List ℕ)
      → (r : List ℕ × Bool) × (extend_any begin_extend end_extend extend_func (length s + 1) s
          ≡ some r)
  unfolding extend_any Ends
  extend_any-ends s = loop-Ends (length s + 1) s 0 false (omega arith)
