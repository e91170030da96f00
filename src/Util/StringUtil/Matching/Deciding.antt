-- ===== src/Util/StringUtil/Matching/Deciding.antt =====
-- The loop of `matching_string` decides what the pattern means.
use network_core.Common.{
  ℕ, zero, suc, ◌+◌, ◌-◌, ◌<◌, ◌≤◌, ◌≡◌, refl, sym, ap, subst, ◌∙◌, Bool, true, false, not, ◌&&◌,
  ◌||◌, ◌⊎◌, Option, some, List, [], ◌∷◌, ◌++◌, ltb, leb, ◌==◌, if◌then◌else◌, length, drop,
  drop-add, length-drop, length-append, arith, Bool-cases, inl, inr,
}
use mathlib.Core.Bool.{false≢true}
use network_core.Util.StringUtil.{char_at, star, question}
use network_core.Util.StringUtil.Finding.{Finding, found_at, not_found, out_of_fuel, finding_string}
use network_core.Util.StringUtil.Finding.Shifts.{Plain, lt_of, ge_of}
use network_core.Util.StringUtil.Finding.First.{FindsFirst, finding_string-FindsFirst}
use network_core.Util.StringUtil.Matching.{
  match_back, is_nil, segment, after_segment, at_character, fits_one, after_found, match_loop,
}
use network_core.Util.StringUtil.Matching.Glob.{
  any_suffix, any_suffix-intro, glob, glob_head, segment-append-after, segment-NoStar,
  any_suffix-elim, glob-front,
}
use network_core.Util.StringUtil.Matching.Segments.{
  not_true, is_nil-length, length-is_nil, last_segment, first_segment, no_segment,
}

-- no NUL in a string
abbrev pub NoNul : List ℕ → Type 0
NoNul s = (i : ℕ) → i < length s → (char_at s i == 0) ≡ false

-- a merged pattern: no NUL, no two `*` in a row, and no `?` between two `*`
pub record Merged (p : List ℕ) : Type 0 where
  pub no_nul : NoNul p
  pub apart : (i : ℕ) → char_at p i ≡ star → (char_at p (suc i) == star) ≡ false
  pub plain :
      (i : ℕ)
      → char_at p i ≡ star
      → (after_segment (drop (suc i) p) ≡ []) ⊎ Plain (segment (drop (suc i) p))

NoNul-drop : (k : ℕ) (s : List ℕ) → NoNul s → NoNul (drop k s)
unfolding char_at
NoNul-drop zero s h = h
NoNul-drop (suc k) [] h = h
NoNul-drop (suc k) (c ∷ s) h = NoNul-drop k s (λ i l. h (suc i) (omega (arith, l)))

Merged-tail : (c : ℕ) (p : List ℕ) → Merged (c ∷ p) → Merged p
unfolding char_at
Merged-tail c p m = record {
  no_nul = λ i l. m.no_nul (suc i) (omega (arith, l));
  apart = λ i h. m.apart (suc i) h;
  plain = λ i h. m.plain (suc i) h;
}

Merged-drop : (k : ℕ) (p : List ℕ) → Merged p → Merged (drop k p)
Merged-drop zero p m = m
Merged-drop (suc k) [] m = m
Merged-drop (suc k) (c ∷ p) m = Merged-drop k p (Merged-tail c p m)

-- a pattern that is used up needs a text that is
abbrev pub Ends : List ℕ → List ℕ → Type 0
Ends p s = is_nil p ≡ true → is_nil s ≡ true

nil_of : (s : List ℕ) → is_nil s ≡ true → s ≡ []
unfolding is_nil
nil_of [] h = refl
nil_of (c ∷ s) h = absurd (false≢true h)

after_segment-cases :
    (p : List ℕ) → (after_segment p ≡ []) ⊎ ((r : List ℕ) × (after_segment p ≡ star ∷ r))
unfolding after_segment
after_segment-cases [] = inl refl
after_segment-cases (c ∷ p) =
    let choose : Bool → List ℕ = λ b. if b then c ∷ p else after_segment p in
    elim (Bool-cases (c == star)) [
      | inl h ↦ inr (p, ap choose h ∙ ap (λ x. x ∷ p) (ground (arith, h)))
      | inr h ↦ (elim (after_segment-cases p) [
        | inl e ↦ inl (ap choose h ∙ e)
        | inr (r, e) ↦ inr (r, ap choose h ∙ e)
      ])
    ]

segment_large :
    (p : List ℕ) → is_nil p ≡ false → (char_at p 0 == star) ≡ false → 1 ≤ length (segment p)
unfolding is_nil char_at segment
segment_large [] h k = absurd (false≢true (sym h))
segment_large (c ∷ p) h k =
    subst (λ (b : Bool). 1 ≤ length (if b then [] else c ∷ segment p)) (sym k) (omega arith)

-- the turn on `*`, over what the loop does from the next place
module _ (p whole : List ℕ) (o : ℕ) (next : ℕ → Option Bool)
    (large : is_nil p ≡ false → 1 ≤ length (segment p))
    (plain : (after_segment p ≡ []) ⊎ Plain (segment p))
    (go_on : (pos : ℕ)
      → 1 ≤ length (after_segment p)
      → next pos
        ≡ some (
            glob
              (drop (length (segment p) - 1) p)
              (drop (pos + length (segment p) - 1) (drop o whole)))) where
  after_found_lem :
      (r : List ℕ)
      → after_segment p ≡ star ∷ r
      → Plain (segment p)
      → 1 ≤ length (segment p)
      → (f : Finding) → FindsFirst (drop o whole) (segment p) 0 f
      → after_found next f ≡ some (any_suffix (glob p) (drop o whole))
  unfolding after_found
  after_found_lem r e pl lg (found_at pos) h =
      let whole_p : segment p ++ (star ∷ r) ≡ p =
        ap (◌++◌ (segment p)) (sym e) ∙ segment-append-after p in
      go_on pos (omega (arith, ap length e))
      ∙ ap some (
          sym (
            subst
              (λ q.
                any_suffix (glob q) (drop o whole)
                ≡ glob (drop (length (segment p) - 1) q)
                    (drop (pos + length (segment p) - 1) (drop o whole)))
              whole_p (first_segment (segment p) r (drop o whole) (segment-NoStar p) pl lg pos h)))
  after_found_lem r e pl lg not_found h =
      let whole_p : segment p ++ (star ∷ r) ≡ p =
        ap (◌++◌ (segment p)) (sym e) ∙ segment-append-after p in
      ap some (
        sym (
          subst (λ q. any_suffix (glob q) (drop o whole) ≡ false) whole_p
            (no_segment (segment p) r (drop o whole) (segment-NoStar p) pl lg h)))
  after_found_lem r e pl lg out_of_fuel h = absurd h

  too_short :
      length (drop o whole) < length (segment p) → any_suffix (glob p) (drop o whole) ≡ false
  too_short l = not_true _ (λ h.
      let (k, g) = any_suffix-elim (glob p) (drop o whole) h in
      let (le, fg) =
        glob-front (after_segment p) (segment p) (drop k (drop o whole)) (segment-NoStar p)
          (ap (λ q. glob q (drop k (drop o whole))) (segment-append-after p) ∙ g) in
      omega (arith, le, l, length-drop k (drop o whole)))

  after_star :
      (if is_nil p
        then some true
        else if ltb (length (drop o whole)) (length (segment p))
        then some false
        else if is_nil (after_segment p)
        then some (match_back (length (segment p)) (segment p) whole)
        else after_found next (finding_string (drop o whole) (segment p) 0))
      ≡ some (any_suffix (glob p) (drop o whole))
  unfolding is_nil glob
  after_star =
      let source = drop o whole in
      let n = length (segment p) in
      let found = after_found next (finding_string source (segment p) 0) in
      let tail : Bool → Option Bool =
        λ b. if b then some (match_back n (segment p) whole) else found in
      let long : Bool → Option Bool =
        λ b. if b then some false else tail (is_nil (after_segment p)) in
      let first : Bool → Option Bool = λ b. if b then some true else long (ltb (length source) n) in
      elim (Bool-cases (is_nil p)) [
        | inl empty ↦
            ap first empty
            ∙ ap some (
                sym (
                  ap (λ q. any_suffix (glob q) source) (nil_of p empty)
                  ∙ any_suffix-intro (glob []) (length source) source (drained source)))
        | inr full ↦ (elim (Bool-cases (ltb (length source) n)) [
          | inl short ↦
              ap first full
              ∙ ap long short
              ∙ ap some (sym (too_short (lt_of (length source) n short)))
          | inr fits ↦ (elim (after_segment-cases p) [
            | inl e ↦
                ap first full
                ∙ ap long fits
                ∙ ap (λ q. tail (is_nil q)) e
                ∙ ap some (
                    sym (
                      last_segment (segment p) whole o (segment-NoStar p)
                        (ge_of (length source) n fits))
                    ∙ ap (λ q. any_suffix (glob q) source)
                        (ap (◌++◌ (segment p)) (sym e) ∙ segment-append-after p))
            | inr (r, e) ↦
                ap first full
                ∙ ap long fits
                ∙ ap (λ q. tail (is_nil q)) e
                ∙ after_found_lem r e (plain_here r e plain) (large full) _
                    (finding_string-FindsFirst source (segment p) 0 (plain_here r e plain))
          ])
        ])
      ]
    where
      drained : (s : List ℕ) → glob [] (drop (length s) s) ≡ true
      drained s = length-is_nil (drop (length s) s) (omega (arith, length-drop (length s) s))

      plain_here :
          (r : List ℕ)
          → after_segment p ≡ star ∷ r
          → ((after_segment p ≡ []) ⊎ Plain (segment p))
          → Plain (segment p)
      plain_here r e (inl n) = absurd (omega (arith, ap length (sym n ∙ e)))
      plain_here r e (inr h) = h

fits_nil : (c : ℕ) → (c == 0) ≡ false → fits_one c [] ≡ false
unfolding fits_one char_at
fits_nil c h = elim (Bool-cases (c == question)) [
  | inl q ↦ ap (λ (b : Bool). if b then false else 0 == c) q
  | inr q ↦ ap (λ (b : Bool). if b then false else 0 == c) q ∙ ground (arith, h)
]

fits_cons :
    (c d : ℕ) (s : List ℕ) → (d == 0) ≡ false → fits_one c (d ∷ s) ≡ ((c == question) || (d == c))
unfolding fits_one char_at
fits_cons c d s h = elim (Bool-cases (c == question)) [
  | inl q ↦
      ap (λ (b : Bool). if b then not (d == 0) else d == c) q
      ∙ (ap not h ∙ sym (ap (λ (b : Bool). b || (d == c)) q))
  | inr q ↦
      ap (λ (b : Bool). if b then not (d == 0) else d == c) q
      ∙ sym (ap (λ (b : Bool). b || (d == c)) q)
]

left_over : (p s : List ℕ) → (is_nil p && leb 2 (suc (length s))) ≡ true → glob p s ≡ false
unfolding is_nil glob
left_over (c ∷ p) s h = absurd (false≢true h)
left_over [] [] h = absurd (ground (arith, h))
left_over [] (d ∷ s) h = refl

used_up : (p s : List ℕ) → (is_nil p && leb 2 (suc (length s))) ≡ false → Ends p s
unfolding is_nil
used_up (c ∷ p) s h e = absurd (false≢true e)
used_up [] s h e = length-is_nil s (ground (arith, h))

at_character_lem :
    (c : ℕ) (p source : List ℕ) (rest : Option Bool)
    → (c == star) ≡ false
    → (c == 0) ≡ false
    → NoNul source
    → (Ends p (drop 1 source) → rest ≡ some (glob p (drop 1 source)))
    → at_character (fits_one c source) p source rest ≡ some (glob (c ∷ p) source)
unfolding at_character glob glob_head char_at is_nil
at_character_lem c p [] rest ns nz nn h =
    ap (λ (b : Bool). if not b then some false else if is_nil p && false then some false else rest)
      (fits_nil c nz)
    ∙ ap some (sym (ap (λ (b : Bool). if b then glob p [] else false) ns))
at_character_lem c p (d ∷ s) rest ns nz nn h =
    let F = (c == question) || (d == c) in
    let inner : Bool → Option Bool = λ b. if b then some false else rest in
    let outer : Bool → Option Bool =
      λ b. if not b then some false else inner (is_nil p && leb 2 (suc (length s))) in
    let head : Bool → Bool = λ b. if b then glob p s else false in
    let meant : glob (c ∷ p) (d ∷ s) ≡ head F =
      ap (λ (b : Bool). if b then any_suffix (glob p) (d ∷ s) else head F) ns in
    ap outer (fits_cons c d s (nn zero (omega arith)))
    ∙ (elim (Bool-cases F) [
      | inr no_fit ↦ ap outer no_fit ∙ ap some (sym (ap head no_fit))
      | inl fit ↦ ap outer fit ∙ (elim (Bool-cases (is_nil p && leb 2 (suc (length s)))) [
        | inl over ↦ ap inner over ∙ ap some (sym (ap head fit ∙ left_over p s over))
        | inr last ↦ ap inner last ∙ (h (used_up p s last) ∙ ap some (sym (ap head fit)))
      ])
    ]
        ∙ ap some (sym meant))

pub match_loop_lem :
    (fuel : ℕ) (whole p : List ℕ) (o : ℕ)
    → Merged p
    → NoNul whole
    → Ends p (drop o whole)
    → length p ≤ fuel
    → match_loop fuel whole p (drop o whole) ≡ some (glob p (drop o whole))
unfolding match_loop glob is_nil char_at
match_loop_lem fuel whole [] o m nn ends f = ap some (sym (ends refl))
match_loop_lem zero whole (c ∷ p) o m nn ends f = absurd (omega (arith, f))
match_loop_lem (suc fuel) whole (c ∷ p) o m nn ends f =
    let source = drop o whole in
    let n = length (segment p) in
    let one = match_loop fuel whole p (drop 1 source) in
    let next : ℕ → Option Bool =
      λ pos. match_loop fuel whole (drop (n - 1) p) (drop (pos + n - 1) source) in
    let after = after_found next (finding_string source (segment p) 0) in
    let at_star =
      if is_nil p
      then some true
      else if ltb (length source) n
      then some false
      else if is_nil (after_segment p)
      then some (match_back n (segment p) whole)
      else after in
    let turn : Bool → Option Bool =
      λ b. if b then at_star else at_character (fits_one c source) p source one in
    elim (Bool-cases (c == star)) [
      | inl starred ↦
          (let same : c ≡ star = ground (arith, starred) in
            ap turn starred
            ∙ after_star p whole o next (λ full. segment_large p full (m.apart 0 same))
                (m.plain 0 same)
                (λ pos more.
                  ap (match_loop fuel whole (drop (n - 1) p)) (deeper pos)
                  ∙ match_loop_lem fuel whole (drop (n - 1) p) (o + (pos + n - 1))
                      (Merged-drop (n - 1) p (Merged-tail c p m)) nn
                      (λ empty. absurd (left_in p more empty))
                      (omega (arith, f, length-drop (n - 1) p))
                  ∙ ap (λ x. some (glob (drop (n - 1) p) x)) (sym (deeper pos)))
            ∙ ap some (
                sym (
                  ap
                    (λ (b : Bool).
                      if b
                      then any_suffix (glob p) source
                      else if glob_head c source
                      then glob p (drop 1 source)
                      else false)
                    starred)))
      | inr other ↦
          ap turn other
          ∙ at_character_lem c p source one other (m.no_nul 0 (omega arith)) (NoNul-drop o whole nn)
              (λ e.
                ap (match_loop fuel whole p) (sym (drop-add o 1 whole))
                ∙ match_loop_lem fuel whole p (o + 1) (Merged-tail c p m) nn
                    (λ h. subst (λ x. is_nil x ≡ true) (sym (drop-add o 1 whole)) (e h))
                    (omega (arith, f))
                ∙ ap (λ x. some (glob p x)) (drop-add o 1 whole))
    ]
  where
    deeper :
        (pos : ℕ)
        → drop (pos + length (segment p) - 1) (drop o whole)
          ≡ drop (o + (pos + length (segment p) - 1)) whole
    deeper pos = sym (drop-add o _ whole)

    left_in :
        (q : List ℕ)
        → 1 ≤ length (after_segment q)
        → is_nil (drop (length (segment q) - 1) q) ≡ true
        → ⊥
    left_in q more empty = omega (
      arith,
      more,
      is_nil-length (drop (length (segment q) - 1) q) empty,
      length-drop (length (segment q) - 1) q,
      length-append (segment q) (after_segment q),
      ap length (segment-append-after q),
    )
