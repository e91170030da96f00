-- ===== src/Util/StringUtil/Matching/Merging.antt =====
-- The copies that `matching_string` compares: a run of `*` merged into one, and both in lower case.
use network_core.Common.{
  ℕ, zero, suc, ◌+◌, ◌≤◌, ◌≡◌, refl, sym, ap, subst, ◌∙◌, Bool, true, false, ◌&&◌, ◌⊎◌, Option,
  some, List, [], ◌∷◌, leb, ◌==◌, if◌then◌else◌, length, drop, drop-add, arith, Bool-cases, inl,
  inr,
}
use mathlib.Core.Bool.{false≢true}
use network_core.Util.StringUtil.{char_at, star}
use network_core.Util.StringUtil.Finding.Shifts.{Plain}
use network_core.Util.StringUtil.Matching.{
  lower, lower_all, merge_stars, is_nil, segment, after_segment, match_loop, matching_string,
}
use network_core.Util.StringUtil.Matching.Glob.{
  any_suffix, any_suffix-intro, any_suffix-elim, glob, glob_head,
}
use network_core.Util.StringUtil.Matching.Segments.{Bool-iff}
use network_core.Util.StringUtil.Matching.Deciding.{NoNul, Merged, match_loop_lem}

lower-star : (m : Bool) (c : ℕ) → c ≡ star → lower m c ≡ star
unfolding lower
lower-star true c e = e
lower-star false c e = ap (λ d. if leb 65 d && leb d 90 then d + 32 else d) e

lower_cases : (m : Bool) (c : ℕ) → (lower m c ≡ c) ⊎ ((65 ≤ c) × (lower m c ≡ c + 32))
unfolding lower
lower_cases true c = inl refl
lower_cases false c =
    let choose : Bool → ℕ = λ b. if b then c + 32 else c in
    elim (Bool-cases (leb 65 c && leb c 90)) [
      | inl h ↦ inr (ground (arith, h), ap choose h)
      | inr h ↦ inl (ap choose h)
    ]

lower_other : (m : Bool) (c : ℕ) → (c == star) ≡ false → (lower m c == star) ≡ false
lower_other m c h = elim (lower_cases m c) [
  | inl e ↦ ap (λ d. d == star) e ∙ h
  | inr (l, e) ↦ ground (arith, l, e)
]

lower_nul : (m : Bool) (c : ℕ) → (c == 0) ≡ false → (lower m c == 0) ≡ false
lower_nul m c h = elim (lower_cases m c) [
  | inl e ↦ ap (λ d. d == 0) e ∙ h
  | inr (l, e) ↦ ground (arith, l, e)
]

lower_all-NoNul : (s : List ℕ) → NoNul s → NoNul (lower_all s)
unfolding lower_all char_at
lower_all-NoNul [] n i l = absurd (omega (arith, l))
lower_all-NoNul (c ∷ s) n zero l = lower_nul false c (n zero (omega arith))
lower_all-NoNul (c ∷ s) n (suc i) l =
    lower_all-NoNul s (λ k b. n (suc k) (omega (arith, b))) i (omega (arith, l))

-- `merge_stars` on `*` and on another character
merge_star :
    (m b : Bool) (c : ℕ) (p : List ℕ)
    → (c == star) ≡ true
    → merge_stars m b (c ∷ p) ≡ (if b then merge_stars m true p else star ∷ merge_stars m true p)
unfolding merge_stars
merge_star m b c p h =
    ap
      (λ (x : Bool).
        if x
        then (if b then merge_stars m true p else star ∷ merge_stars m true p)
        else lower m c ∷ merge_stars m false p)
      h

merge_other :
    (m b : Bool) (c : ℕ) (p : List ℕ)
    → (c == star) ≡ false
    → merge_stars m b (c ∷ p) ≡ lower m c ∷ merge_stars m false p
unfolding merge_stars
merge_other m b c p h =
    ap
      (λ (x : Bool).
        if x
        then (if b then merge_stars m true p else star ∷ merge_stars m true p)
        else lower m c ∷ merge_stars m false p)
      h

merge-head : (m : Bool) (p : List ℕ) → (char_at (merge_stars m true p) 0 == star) ≡ false
unfolding merge_stars char_at
merge-head m [] = refl
merge-head m (c ∷ p) = elim (Bool-cases (c == star)) [
  | inl h ↦ ap (λ q. char_at q 0 == star) (merge_star m true c p h) ∙ merge-head m p
  | inr h ↦ ap (λ q. char_at q 0 == star) (merge_other m true c p h) ∙ lower_other m c h
]

-- a property of a merged pattern that both ways to add a character keep
module _ (P : List ℕ → Type 0) (m : Bool) (at_end : P [])
    (at_star : (p : List ℕ) → P (merge_stars m true p) → P (star ∷ merge_stars m true p))
    (at_other : (c : ℕ) (q : List ℕ)
      → (c == star) ≡ false
      → (c == 0) ≡ false
      → P q
      → P (lower m c ∷ q)) where
  merge_induction : (b : Bool) (p : List ℕ) → NoNul p → P (merge_stars m b p)
  unfolding merge_stars char_at
  merge_induction b [] n = at_end
  merge_induction b (c ∷ p) n =
      let later : NoNul p = λ i l. n (suc i) (omega (arith, l)) in
      elim (Bool-cases (c == star)) [
        | inl h ↦ subst P (sym (merge_star m b c p h)) (starred b p (merge_induction true p later))
        | inr h ↦ subst P (sym (merge_other m b c p h)) (
            at_other c (merge_stars m false p) h (n zero (omega arith))
              (merge_induction false p later))
      ]
    where
      starred :
          (b' : Bool) (q : List ℕ)
          → P (merge_stars m true q)
          → P (if b' then merge_stars m true q else star ∷ merge_stars m true q)
      starred true q x = x
      starred false q x = at_star q x

NoNul-cons : (c : ℕ) (q : List ℕ) → (c == 0) ≡ false → NoNul q → NoNul (c ∷ q)
unfolding char_at
NoNul-cons c q h n zero l = h
NoNul-cons c q h n (suc i) l = n i (omega (arith, l))

Apart : List ℕ → Type 0
Apart q = (i : ℕ) → char_at q i ≡ star → (char_at q (suc i) == star) ≡ false

Apart-cons :
    (c : ℕ) (q : List ℕ) → (c ≡ star → (char_at q 0 == star) ≡ false) → Apart q → Apart (c ∷ q)
unfolding char_at Apart
Apart-cons c q h a zero e = h e
Apart-cons c q h a (suc i) e = a i e

merge-NoNul : (m : Bool) (p : List ℕ) → NoNul p → NoNul (merge_stars m false p)
unfolding char_at
merge-NoNul m =
    merge_induction NoNul m (λ i l. absurd (omega (arith, l))) (λ p n. NoNul-cons star _ refl n)
      (λ c q s z n. NoNul-cons _ q (lower_nul m c z) n) false

merge-Apart : (m : Bool) (p : List ℕ) → NoNul p → Apart (merge_stars m false p)
unfolding Apart char_at
merge-Apart m =
    merge_induction Apart m (λ i e. refl) (λ p a. Apart-cons star _ (λ e. merge-head m p) a)
      (λ c q s z a. Apart-cons _ q (λ e. absurd (ground (arith, lower_other m c s, e))) a) false

any_suffix-cong :
    (f g : List ℕ → Bool)
    → ((s : List ℕ) → f s ≡ g s)
    → (s : List ℕ) → any_suffix f s ≡ any_suffix g s
unfolding any_suffix
any_suffix-cong f g e [] = e []
any_suffix-cong f g e (c ∷ s) =
    ap (λ (b : Bool). if b then true else any_suffix f s) (e (c ∷ s))
    ∙ ap (λ (b : Bool). if g (c ∷ s) then true else b) (any_suffix-cong f g e s)

any_suffix-twice : (g : List ℕ → Bool) (s : List ℕ) → any_suffix (any_suffix g) s ≡ any_suffix g s
any_suffix-twice g s =
    Bool-iff _ _
      (λ h.
        let (k, e) = any_suffix-elim (any_suffix g) s h in
        let (j, e') = any_suffix-elim g (drop k s) e in
        any_suffix-intro g (k + j) s (ap g (drop-add k j s) ∙ e'))
      (λ h. any_suffix-intro (any_suffix g) 0 s h)

-- the text that a pattern means, by whether it begins with `*`
glob-star : (c : ℕ) (p s : List ℕ) → (c == star) ≡ true → glob (c ∷ p) s ≡ any_suffix (glob p) s
unfolding glob
glob-star c p s h =
    ap
      (λ (b : Bool).
        if b then any_suffix (glob p) s else if glob_head c s then glob p (drop 1 s) else false)
      h

glob-tail :
    (c : ℕ) (p q : List ℕ)
    → (c == star) ≡ false
    → ((s : List ℕ) → glob p s ≡ glob q s)
    → (s : List ℕ) → glob (c ∷ p) s ≡ glob (c ∷ q) s
unfolding glob
glob-tail c p q h e s =
    let head : Bool → Bool = λ b. if glob_head c s then b else false in
    ap (λ (b : Bool). if b then any_suffix (glob p) s else head (glob p (drop 1 s))) h
    ∙ ap head (e (drop 1 s))
    ∙ sym (ap (λ (b : Bool). if b then any_suffix (glob q) s else head (glob q (drop 1 s))) h)

glob-lower_star :
    (c : ℕ) (p s : List ℕ)
    → (c == star) ≡ true
    → glob (lower_all (c ∷ p)) s ≡ any_suffix (glob (lower_all p)) s
unfolding lower_all
glob-lower_star c p s h =
    glob-star (lower false c) (lower_all p) s
      (ap (λ d. d == star) (lower-star false c (ground (arith, h))))

-- the merged pattern means what the pattern does, alone and behind a `*`
glob-merge :
    (p : List ℕ)
    → ((s : List ℕ)
        → any_suffix (glob (merge_stars false true p)) s ≡ any_suffix (glob (lower_all p)) s)
      × ((s : List ℕ) → glob (merge_stars false false p) s ≡ glob (lower_all p) s)
unfolding merge_stars lower_all
glob-merge [] = ((λ s. refl), (λ s. refl))
glob-merge (c ∷ p) =
    let (f, g) = glob-merge p in
    let other : (c == star) ≡ false
        → (s : List ℕ)
        → glob (lower false c ∷ merge_stars false false p) s
          ≡ glob (lower false c ∷ lower_all p) s =
      λ h.
        glob-tail (lower false c) (merge_stars false false p) (lower_all p) (lower_other false c h)
          g in
    elim (Bool-cases (c == star)) [
      | inl h ↦ (
        (λ s.
            ap (λ q. any_suffix (glob q) s) (merge_star false true c p h)
            ∙ (f s
                ∙ (sym (any_suffix-twice (glob (lower_all p)) s)
                    ∙ sym (
                        any_suffix-cong (glob (lower_all (c ∷ p))) (any_suffix (glob (lower_all p)))
                          (λ t. glob-lower_star c p t h) s)))),
        (λ s.
            ap (λ q. glob q s) (merge_star false false c p h)
            ∙ (glob-star star (merge_stars false true p) s refl
                ∙ (f s ∙ sym (glob-lower_star c p s h)))),
      )
      | inr h ↦ (
        (λ s.
            ap (λ q. any_suffix (glob q) s) (merge_other false true c p h)
            ∙ any_suffix-cong _ _ (other h) s),
        (λ s. ap (λ q. glob q s) (merge_other false false c p h) ∙ other h s),
      )
    ]

-- no `?` between two `*` of the pattern
abbrev pub PlainInside : List ℕ → Type 0
PlainInside p =
    (i : ℕ)
    → char_at p i ≡ star
    → (after_segment (drop (suc i) p) ≡ []) ⊎ Plain (segment (drop (suc i) p))

merged_lem :
    (m : Bool) (p : List ℕ)
    → NoNul p
    → PlainInside (merge_stars m false p)
    → Merged (merge_stars m false p)
unfolding Apart
merged_lem m p n inside = record {
  no_nul = merge-NoNul m p n;
  apart = merge-Apart m p n;
  plain = inside;
}

merge-nil : (m : Bool) (p : List ℕ) → is_nil p ≡ false → is_nil (merge_stars m false p) ≡ false
unfolding is_nil merge_stars
merge-nil m [] h = h
merge-nil m (c ∷ p) h = elim (Bool-cases (c == star)) [
  | inl s ↦ ap is_nil (merge_star m false c p s)
  | inr s ↦ ap is_nil (merge_other m false c p s)
]

nil-glob : (p s : List ℕ) → is_nil p ≡ true → is_nil s ≡ glob (lower_all p) (lower_all s)
unfolding is_nil lower_all glob
nil-glob (c ∷ p) s h = absurd (false≢true h)
nil-glob [] [] h = refl
nil-glob [] (c ∷ s) h = refl

-- For strings without NUL, a pattern whose merged copy has no `?` between two `*`, and where the case
-- does not have to match, `matching_string` ends, and answers whether the text is one that the
-- pattern means, both in lower case: `*` stands for any characters, `?` for one.
pub matching_string-glob :
    (copied : List ℕ → List ℕ) (source pattern : List ℕ)
    → NoNul source
    → NoNul pattern
    → PlainInside (merge_stars false false pattern)
    → matching_string copied source pattern false
      ≡ some (glob (lower_all pattern) (lower_all source))
unfolding matching_string
matching_string-glob copied source pattern ns np inside =
    let text = lower_all source in
    let merged = merge_stars false false pattern in
    let choose : Bool → Option Bool =
      λ b. if b then some (is_nil source) else match_loop (length merged) text merged text in
    elim (Bool-cases (is_nil pattern)) [
      | inl empty ↦ ap choose empty ∙ ap some (nil-glob pattern source empty)
      | inr full ↦
          ap choose full
          ∙ (match_loop_lem (length merged) text merged 0 (merged_lem false pattern np inside)
                (lower_all-NoNul source ns)
                (λ e. absurd (false≢true (sym (merge-nil false pattern full) ∙ e))) (omega arith)
              ∙ ap some ((glob-merge pattern).1 text))
    ]
