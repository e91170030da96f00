-- ===== src/Util/StringUtil/Matching/Glob.antt =====
-- What a pattern with `*` and `?` means: the reference that `matching_string` is compared with.
use network_core.Common.{
  ℕ, zero, suc, ◌+◌, ◌<◌, ◌≤◌, ◌≡◌, refl, sym, ap, subst, ◌∙◌, Bool, true, false, ◌||◌, List, [],
  ◌∷◌, ◌++◌, ◌==◌, if◌then◌else◌, length, drop, arith, Bool-cases, inl, inr,
}
use mathlib.Core.Bool.{false≢true}
use network_core.Util.StringUtil.{char_at, star, question}
use network_core.Util.StringUtil.Matching.{is_nil, segment, after_segment}

-- whether some end of the text, the text itself and the empty one included, passes
unfoldable pub any_suffix : (List ℕ → Bool) → List ℕ → Bool
any_suffix g [] = g []
any_suffix g (c ∷ s) = let rest = any_suffix g s in if g (c ∷ s) then true else rest

unfoldable pub glob_head : ℕ → List ℕ → Bool
unfolding char_at
glob_head c [] = false
glob_head c (d ∷ s) = (c == question) || (d == c)

-- `*` stands for any characters, `?` for one, and another character for itself
unfoldable pub glob : List ℕ → List ℕ → Bool
unfolding is_nil any_suffix glob_head
glob [] s = is_nil s
glob (c ∷ p) s =
    let rest = glob p (drop 1 s) in
    if c == star then any_suffix (glob p) s else if glob_head c s then rest else false

pub char_at-drop : (k i : ℕ) (s : List ℕ) → char_at (drop k s) i ≡ char_at s (k + i)
unfolding char_at
char_at-drop zero i s = (let e : i ≡ 0 + i = omega arith in ap (char_at s) e)
char_at-drop (suc k) i [] = refl
char_at-drop (suc k) i (c ∷ s) =
    (let e : suc (k + i) ≡ suc k + i = omega arith in char_at-drop k i s ∙ ap (char_at (c ∷ s)) e)

either_true : (a : Bool) {b : Bool} → b ≡ true → (if a then true else b) ≡ true
either_true true h = refl
either_true false h = h

pub any_suffix-intro :
    (g : List ℕ → Bool) (k : ℕ) (s : List ℕ) → g (drop k s) ≡ true → any_suffix g s ≡ true
unfolding any_suffix
any_suffix-intro g zero [] h = h
any_suffix-intro g (suc k) [] h = h
any_suffix-intro g zero (c ∷ s) h = ap (λ (b : Bool). if b then true else any_suffix g s) h
any_suffix-intro g (suc k) (c ∷ s) h = either_true (g (c ∷ s)) (any_suffix-intro g k s h)

pub any_suffix-elim :
    (g : List ℕ → Bool) (s : List ℕ) → any_suffix g s ≡ true → (k : ℕ) × (g (drop k s) ≡ true)
unfolding any_suffix
any_suffix-elim g [] h = (0, h)
any_suffix-elim g (c ∷ s) h = elim (Bool-cases (g (c ∷ s))) [
  | inl here ↦ (0, here)
  | inr later ↦
      (let (k, e) =
          any_suffix-elim g s
            (sym (ap (λ (b : Bool). if b then true else any_suffix g s) later) ∙ h) in
        (suc k, e))
]

pub segment-append-after : (p : List ℕ) → segment p ++ after_segment p ≡ p
unfolding segment after_segment
segment-append-after [] = refl
segment-append-after (c ∷ p) =
    let whole : Bool → List ℕ =
      λ b. (if b then [] else c ∷ segment p) ++ (if b then c ∷ p else after_segment p) in
    elim (Bool-cases (c == star)) [
      | inl h ↦ ap whole h
      | inr h ↦ ap whole h ∙ ap (◌∷◌ c) (segment-append-after p)
    ]

head_or_tail :
    (c : ℕ) (s : List ℕ) (i : ℕ)
    → (c == star) ≡ false
    → ((k : ℕ) → (char_at s k == star) ≡ false)
    → (char_at (c ∷ s) i == star) ≡ false
unfolding char_at
head_or_tail c s zero h r = h
head_or_tail c s (suc i) h r = r i

-- no character is `*`
abbrev pub NoStar : List ℕ → Type 0
NoStar seg = (i : ℕ) → (char_at seg i == star) ≡ false

pub segment-NoStar : (p : List ℕ) → NoStar (segment p)
unfolding segment char_at
segment-NoStar [] i = refl
segment-NoStar (c ∷ p) i = elim (Bool-cases (c == star)) [
  | inl h ↦
      subst (λ (b : Bool). (char_at (if b then [] else c ∷ segment p) i == star) ≡ false) (sym h)
        refl
  | inr h ↦
      subst (λ (b : Bool). (char_at (if b then [] else c ∷ segment p) i == star) ≡ false) (sym h)
        (head_or_tail c (segment p) i h (segment-NoStar p))
]

-- character `t` of the segment fits that of the text
abbrev pub Fits : (seg s : List ℕ) → Type 0
Fits seg s =
    (t : ℕ)
    → t < length seg
    → ((char_at seg t == question) || (char_at s t == char_at seg t)) ≡ true

pub both_true : (a b : Bool) → (if a then b else false) ≡ true → (a ≡ true) × (b ≡ true)
both_true true b h = (refl, h)
both_true false b h = (h, absurd (false≢true h))

Fits-cons :
    (c : ℕ) (seg : List ℕ) (d : ℕ) (s : List ℕ)
    → ((c == question) || (d == c)) ≡ true
    → Fits seg s
    → Fits (c ∷ seg) (d ∷ s)
unfolding char_at
Fits-cons c seg d s h f zero l = h
Fits-cons c seg d s h f (suc t) l = f t (omega (arith, l))

module _ (rest : List ℕ) where
  -- past `j` characters of a segment that fits
  pub glob-drop :
      (seg s : List ℕ) (j : ℕ)
      → NoStar seg
      → length seg ≤ length s
      → Fits seg s
      → j ≤ length seg
      → glob (drop j (seg ++ rest)) (drop j s) ≡ glob rest (drop (length seg) s)
  unfolding char_at glob
  glob-drop [] s zero ns le f b = refl
  glob-drop [] s (suc j) ns le f b = absurd (omega (arith, b))
  glob-drop (c ∷ seg) [] j ns le f b = absurd (omega (arith, le))
  glob-drop (c ∷ seg) (d ∷ s) (suc j) ns le f b =
      glob-drop seg s j (λ i. ns (suc i)) (omega (arith, le)) (λ t l. f (suc t) (omega (arith, l)))
        (omega (arith, b))
  glob-drop (c ∷ seg) (d ∷ s) zero ns le f b =
      let next = glob (seg ++ rest) s in
      let first : Bool → Bool = λ x. if x then next else false in
      ap
        (λ (x : Bool).
          if x
          then any_suffix (glob (seg ++ rest)) (d ∷ s)
          else first ((c == question) || (d == c)))
        (ns zero)
      ∙ ap first (f zero (omega arith))
      ∙ glob-drop seg s zero (λ i. ns (suc i)) (omega (arith, le))
          (λ t l. f (suc t) (omega (arith, l))) (omega arith)

  -- a text that passes begins with what fits the segment
  pub glob-front :
      (seg s : List ℕ)
      → NoStar seg
      → glob (seg ++ rest) s ≡ true
      → (length seg ≤ length s) × (Fits seg s × (glob rest (drop (length seg) s) ≡ true))
  unfolding char_at glob
  glob-front [] s ns h = (omega arith, ((λ t l. absurd (omega (arith, l))), h))
  glob-front (c ∷ seg) [] ns h = absurd (
      false≢true (
        sym (ap (λ (b : Bool). if b then any_suffix (glob (seg ++ rest)) [] else false) (ns zero))
        ∙ h))
  glob-front (c ∷ seg) (d ∷ s) ns h =
      let next = glob (seg ++ rest) s in
      let (one, more) = both_true ((c == question) || (d == c)) next (
        sym (
          ap
            (λ (b : Bool).
              if b
              then any_suffix (glob (seg ++ rest)) (d ∷ s)
              else (if (c == question) || (d == c) then next else false))
            (ns zero))
        ∙ h) in
      let (le, (f, g)) = glob-front seg s (λ i. ns (suc i)) more in
      (omega (arith, le), ((λ t l. Fits-cons c seg d s one f t l), g))
