-- ===== src/Util/StringUtil/Matching/Segments.antt =====
-- One segment of a pattern, that is a part between two `*` or after the last one.
use network_core.Common.{
  ℕ, zero, suc, ◌+◌, ◌-◌, ◌<◌, ◌≤◌, ◌≡◌, refl, sym, ap, subst, ◌∙◌, Bool, true, false, ◌||◌, List,
  [], ◌∷◌, ◌++◌, ltb, ◌==◌, if◌then◌else◌, length, drop, drop-add, length-drop, arith, Bool-cases,
  inl, inr,
}
use mathlib.Core.Bool.{false≢true}
use network_core.Util.StringUtil.{char_at, star, question}
use network_core.Util.StringUtil.Finding.{found_at, not_found}
use network_core.Util.StringUtil.Finding.Shifts.{Plain, lt_or_eq, lt_of, ge_of}
use network_core.Util.StringUtil.Finding.First.{Occurs, FindsFirst}
use network_core.Util.StringUtil.Matching.{match_back, is_nil}
use network_core.Util.StringUtil.Matching.Glob.{
  any_suffix, glob, any_suffix-intro, any_suffix-elim, NoStar, Fits, glob-drop, glob-front,
  char_at-drop, both_true,
}

pub Bool-iff : (a b : Bool) → (a ≡ true → b ≡ true) → (b ≡ true → a ≡ true) → a ≡ b
Bool-iff true b f g = sym (f refl)
Bool-iff false true f g = g refl
Bool-iff false false f g = refl

pub not_true : (a : Bool) → (a ≡ true → ⊥) → a ≡ false
not_true true h = absurd (h refl)
not_true false h = refl

pub is_nil-length : (s : List ℕ) → is_nil s ≡ true → length s ≡ 0
unfolding is_nil
is_nil-length [] h = refl
is_nil-length (c ∷ s) h = absurd (false≢true h)

pub length-is_nil : (s : List ℕ) → length s ≡ 0 → is_nil s ≡ true
unfolding is_nil
length-is_nil [] h = refl
length-is_nil (c ∷ s) h = absurd (omega (arith, h))

eq_comm : (a b : ℕ) → (a == b) ≡ (b == a)
eq_comm a b = elim (Bool-cases (b == a)) [ inl h ↦ ground (arith, h) | inr h ↦ ground (arith, h) ]

-- the place against which match_back puts character `k`
AtEnd : List ℕ → List ℕ → ℕ → Type 0
AtEnd part source k =
    ((char_at part k == question)
      || (char_at source (length source - length part + k) == char_at part k))
    ≡ true

match_back-suc :
    (k : ℕ) (part source : List ℕ)
    → match_back (suc k) part source ≡ (
        if (char_at part k == question)
          || (char_at source (length source - length part + k) == char_at part k)
        then match_back k part source
        else false)
unfolding match_back
match_back-suc k part source =
    ap (λ (b : Bool). if (char_at part k == question) || b then match_back k part source else false)
      (eq_comm (char_at part k) (char_at source (length source - length part + k)))

match_back-elim :
    (k : ℕ) (part source : List ℕ)
    → match_back k part source ≡ true
    → (t : ℕ) → t < k
    → AtEnd part source t
unfolding AtEnd
match_back-elim zero part source h t l = absurd (omega (arith, l))
match_back-elim (suc k) part source h t l =
    let (here, rest) =
      both_true _ (match_back k part source) (sym (match_back-suc k part source) ∙ h) in
    elim (lt_or_eq t k l) [
      | inl less ↦ match_back-elim k part source rest t less
      | inr same ↦ subst (AtEnd part source) (sym same) here
    ]

match_back-intro :
    (k : ℕ) (part source : List ℕ)
    → ((t : ℕ) → t < k → AtEnd part source t)
    → match_back k part source ≡ true
unfolding AtEnd match_back
match_back-intro zero part source f = refl
match_back-intro (suc k) part source f =
    match_back-suc k part source
    ∙ ap (λ (b : Bool). if b then match_back k part source else false) (f k (omega arith))
    ∙ match_back-intro k part source (λ t l. f t (omega (arith, l)))

-- a text that ends with the last segment
module _ (seg whole : List ℕ) (o : ℕ) where
  size : (k n : ℕ) → length (drop n (drop k (drop o whole))) ≡ length whole - o - k - n
  size k n =
      length-drop n (drop k (drop o whole))
      ∙ ap (λ m. m - n) (length-drop k (drop o whole) ∙ ap (λ m. m - k) (length-drop o whole))

  place :
      (k t : ℕ)
      → t < length seg
      → length whole - o - k ≡ length seg
      → char_at (drop k (drop o whole)) t ≡ char_at whole (length whole - length seg + t)
  place k t l e =
      char_at-drop k t (drop o whole)
      ∙ (char_at-drop o (k + t) whole ∙ ap (char_at whole) (omega (arith, l, e)))

  fit_iff :
      (k t : ℕ)
      → t < length seg
      → length whole - o - k ≡ length seg
      → ((char_at seg t == question) || (char_at (drop k (drop o whole)) t == char_at seg t)) ≡ (
          (char_at seg t == question)
          || (char_at whole (length whole - length seg + t) == char_at seg t))
  fit_iff k t l e = ap (λ c. (char_at seg t == question) || (c == char_at seg t)) (place k t l e)

  pub last_segment :
      NoStar seg
      → length seg ≤ length (drop o whole)
      → any_suffix (glob (seg ++ [])) (drop o whole) ≡ match_back (length seg) seg whole
  unfolding glob AtEnd
  last_segment ns fits =
      let n = length seg in
      let s = drop o whole in
      Bool-iff _ _
        (λ h.
          let (k, g) = any_suffix-elim (glob (seg ++ [])) s h in
          let (le, (f, e)) = glob-front [] seg (drop k s) ns g in
          let ends : length whole - o - k ≡ n =
            omega (arith, is_nil-length (drop n (drop k s)) e, size k n, le, size k 0) in
          match_back-intro n seg whole (λ t l. sym (fit_iff k t l ends) ∙ f t l))
        (λ h.
          let k = length s - n in
          let ends : length whole - o - k ≡ n = omega (arith, fits, length-drop o whole) in
          any_suffix-intro (glob (seg ++ [])) k s (
            glob-drop [] seg (drop k s) 0 ns (omega (arith, size k 0, ends))
              (λ t l. fit_iff k t l ends ∙ match_back-elim n seg whole h t l) (omega arith)
            ∙ length-is_nil (drop n (drop k s)) (omega (arith, size k n, ends))))

same_char : (a b : ℕ) → (a == question) ≡ false → ((a == question) || (b == a)) ≡ true → b ≡ a
same_char a b p h = ground (arith, p, h)

either_char : (a b : ℕ) → b ≡ a → ((a == question) || (b == a)) ≡ true
either_char a b e = ground (arith, e)

-- a segment between two `*`: its first place will do
module _ (seg r source : List ℕ) (ns : NoStar seg) (plain : Plain seg)
    (large : 1 ≤ length seg) where
  Fits-Occurs :
      (k : ℕ) → length seg ≤ length (drop k source) → Fits seg (drop k source) → Occurs source seg k
  Fits-Occurs k le f = record {
    fits = omega (arith, le, large, length-drop k source);
    same = λ t l.
        sym (char_at-drop k t source)
        ∙ same_char (char_at seg t) (char_at (drop k source) t) (plain t) (f t l);
  }

  Occurs-Fits : (k : ℕ) → Occurs source seg k → Fits seg (drop k source)
  Occurs-Fits k o t l =
      either_char (char_at seg t) (char_at (drop k source) t) (char_at-drop k t source ∙ o.same t l)

  -- what passes from a later place passes from an earlier one
  later :
      (a b : ℕ)
      → b ≤ a
      → glob (star ∷ r) (drop a source) ≡ true
      → glob (star ∷ r) (drop b source) ≡ true
  unfolding glob
  later a b le h =
      let (k, e) = any_suffix-elim (glob r) (drop a source) h in
      any_suffix-intro (glob r) (a - b + k) (drop b source) (
        ap (glob r) (
          drop_twice b (a - b + k)
          ∙ ap (λ m. drop m source) (omega (arith, le))
          ∙ sym (drop_twice a k))
        ∙ e)
    where
      drop_twice : (x y : ℕ) → drop y (drop x source) ≡ drop (x + y) source
      drop_twice x y = sym (drop-add x y source)

  pub first_segment :
      (pos : ℕ)
      → FindsFirst source seg 0 (found_at pos)
      → any_suffix (glob (seg ++ (star ∷ r))) source
        ≡ glob (drop (length seg - 1) (seg ++ (star ∷ r))) (drop (pos + length seg - 1) source)
  first_segment pos (occurs, from, least) =
      let n = length seg in
      let rest = star ∷ r in
      let room : n ≤ length (drop pos source) =
        omega (arith, occurs.fits, length-drop pos source) in
      let pass = λ (j : ℕ) (b : j ≤ n).
        glob-drop rest seg (drop pos source) j ns room (Occurs-Fits pos occurs) b in
      let last : drop (n - 1) (drop pos source) ≡ drop (pos + n - 1) source =
        sym (drop-add pos (n - 1) source) ∙ ap (λ m. drop m source) (omega (arith, large)) in
      Bool-iff _ _
        (λ h.
          let (k, g) = any_suffix-elim (glob (seg ++ rest)) source h in
          let (le, (f, e)) = glob-front rest seg (drop k source) ns g in
          let after : pos ≤ k = first_le k (Fits-Occurs k le f) least in
          ap (glob (drop (n - 1) (seg ++ rest))) (sym last)
          ∙ (pass (n - 1) (omega arith)
              ∙ (ap (glob rest) (sym (drop-add pos n source))
                  ∙ later (k + n) (pos + n) (omega (arith, after))
                      (ap (glob rest) (drop-add k n source) ∙ e))))
        (λ h. any_suffix-intro (glob (seg ++ rest)) pos source (
          pass 0 (omega arith)
          ∙ (sym (pass (n - 1) (omega arith)) ∙ (ap (glob (drop (n - 1) (seg ++ rest))) last ∙ h))))
    where
      first_le :
          (k : ℕ)
          → Occurs source seg k
          → ((q : ℕ) → 0 ≤ q → q < pos → Occurs source seg q → ⊥)
          → pos ≤ k
      first_le k o least = elim (Bool-cases (ltb k pos)) [
        | inl h ↦ absurd (least k (omega arith) (lt_of k pos h) o)
        | inr h ↦ ge_of k pos h
      ]

  pub no_segment :
      FindsFirst source seg 0 not_found → any_suffix (glob (seg ++ (star ∷ r))) source ≡ false
  no_segment none_ = not_true _ (λ h.
      let (k, g) = any_suffix-elim (glob (seg ++ (star ∷ r))) source h in
      let (le, (f, e)) = glob-front (star ∷ r) seg (drop k source) ns g in
      none_ k (omega arith) (Fits-Occurs k le f))
