-- ===== src/Util/StringUtil/MultiMatching.antt =====
-- `multi_matching` of network/util/string.hpp: a text against several patterns in one string.
use network_core.Common.{
  ℕ, ◌≡◌, refl, sym, ap, subst, ◌∙◌, Bool, true, false, not, ◌&&◌, ◌||◌, Option, none, some, List,
  [], ◌∷◌, ◌++◌, append-nil, append_assoc, ◌==◌, if◌then◌else◌, Bool-cases, inl, inr,
}
use network_core.Util.StringUtil.Matching.{is_nil, lower_all, merge_stars, matching_string}
use network_core.Util.StringUtil.Matching.Deciding.{NoNul}
use network_core.Util.StringUtil.Matching.Glob.{glob}
use network_core.Util.StringUtil.Matching.Merging.{PlainInside, matching_string-glob}

-- `break` on a match, and on none
unfoldable pub until_true : Option Bool → Option Bool → Option Bool
until_true none rest = none
until_true (some true) rest = some true
until_true (some false) rest = rest

unfoldable pub until_false : Option Bool → Option Bool → Option Bool
until_false none rest = none
until_false (some true) rest = rest
until_false (some false) rest = some false

module _ (ask : List ℕ → Option Bool) where
  -- the loop for `match_logic` 0, with what is in `sub_match`
  unfoldable pub any_part : ℕ → List ℕ → List ℕ → Option Bool
  unfolding is_nil until_true
  any_part split_char sub [] = if is_nil sub then some false else ask sub
  any_part split_char sub (c ∷ s) =
      let next = any_part split_char [] s in
      let grown = any_part split_char (sub ++ (c ∷ [])) s in
      if c == split_char then (if is_nil sub then next else until_true (ask sub) next) else grown

  -- the other loop
  unfoldable pub all_parts : ℕ → List ℕ → List ℕ → Option Bool
  unfolding until_false
  all_parts split_char sub [] = ask sub
  all_parts split_char sub (c ∷ s) =
      let next = all_parts split_char [] s in
      let grown = all_parts split_char (sub ++ (c ∷ [])) s in
      if c == split_char then until_false (ask sub) next else grown

abbrev pub comma : ℕ
comma = 44

unfoldable pub reversed : Bool → Option Bool → Option Bool
reversed ret_reversed none = none
reversed ret_reversed (some b) = some (if ret_reversed then not b else b)

unfoldable pub multi_matching :
    (List ℕ → List ℕ) → List ℕ → List ℕ → ℕ → Bool → Bool → ℕ → Option Bool
unfolding matching_string any_part all_parts reversed
multi_matching copied source patterns match_logic ret_reversed matchcase split_char =
    let ask = λ (p : List ℕ). matching_string copied source p matchcase in
    reversed ret_reversed (
      if match_logic == 0
      then any_part ask split_char [] patterns
      else all_parts ask comma [] patterns)

-- the parts of a string between the places of a character
unfoldable pub extend_first : List ℕ → List (List ℕ) → List (List ℕ)
extend_first sub [] = sub ∷ []
extend_first sub (p ∷ ps) = (sub ++ p) ∷ ps

unfoldable pub parts_of : ℕ → List ℕ → List (List ℕ)
unfolding extend_first
parts_of sep [] = [] ∷ []
parts_of sep (c ∷ s) =
    let rest = parts_of sep s in if c == sep then [] ∷ rest else extend_first (c ∷ []) rest

-- the answers for the parts in turn: whether one that is not empty is a match, and whether all are
unfoldable pub any_of : (List ℕ → Option Bool) → List (List ℕ) → Option Bool
unfolding is_nil until_true
any_of ask [] = some false
any_of ask (p ∷ ps) = let rest = any_of ask ps in if is_nil p then rest else until_true (ask p) rest

unfoldable pub every_of : (List ℕ → Option Bool) → List (List ℕ) → Option Bool
unfolding until_false
every_of ask [] = some true
every_of ask (p ∷ ps) = until_false (ask p) (every_of ask ps)

parts_of_cons :
    (sep c : ℕ) (s : List ℕ) (b : Bool)
    → (c == sep) ≡ b
    → parts_of sep (c ∷ s)
      ≡ (if b then [] ∷ parts_of sep s else extend_first (c ∷ []) (parts_of sep s))
unfolding parts_of
parts_of_cons sep c s b h =
    ap (λ (x : Bool). if x then [] ∷ parts_of sep s else extend_first (c ∷ []) (parts_of sep s)) h

extend_first_twice :
    (sub more : List ℕ) (ps : List (List ℕ))
    → extend_first sub (extend_first more ps) ≡ extend_first (sub ++ more) ps
unfolding extend_first
extend_first_twice sub more [] = refl
extend_first_twice sub more (p ∷ ps) = ap (λ x. x ∷ ps) (sym (append_assoc sub more p))

extend_first_nil : (sep : ℕ) (s : List ℕ) → extend_first [] (parts_of sep s) ≡ parts_of sep s
unfolding extend_first parts_of
extend_first_nil sep [] = refl
extend_first_nil sep (c ∷ s) = elim (Bool-cases (c == sep)) [
  | inl h ↦ ap (extend_first []) (parts_of_cons sep c s true h) ∙ sym (parts_of_cons sep c s true h)
  | inr h ↦
      ap (extend_first []) (parts_of_cons sep c s false h)
      ∙ (extend_first_twice [] (c ∷ []) (parts_of sep s) ∙ sym (parts_of_cons sep c s false h))
]

until_true_end : (o : Option Bool) → until_true o (some false) ≡ o
unfolding until_true
until_true_end none = refl
until_true_end (some true) = refl
until_true_end (some false) = refl

until_false_end : (o : Option Bool) → until_false o (some true) ≡ o
unfolding until_false
until_false_end none = refl
until_false_end (some true) = refl
until_false_end (some false) = refl

module _ (ask : List ℕ → Option Bool) (sep : ℕ) where
  any_part-any_of :
      (sub s : List ℕ) → any_part ask sep sub s ≡ any_of ask (extend_first sub (parts_of sep s))
  unfolding any_part any_of extend_first parts_of
  any_part-any_of sub [] =
      ap (λ (o : Option Bool). if is_nil sub then some false else o)
        (sym (until_true_end (ask sub)))
      ∙ ap (λ p. any_of ask (p ∷ [])) (sym (append-nil sub))
  any_part-any_of sub (c ∷ s) =
      let next = any_part ask sep [] s in
      let stop = if is_nil sub then next else until_true (ask sub) next in
      let turn : Bool → Option Bool =
        λ b. if b then stop else any_part ask sep (sub ++ (c ∷ [])) s in
      elim (Bool-cases (c == sep)) [
        | inl h ↦
            ap turn h
            ∙ (ap (λ (o : Option Bool). if is_nil sub then o else until_true (ask sub) o)
                  (any_part-any_of [] s ∙ ap (any_of ask) (extend_first_nil sep s))
                ∙ (ap (λ p. any_of ask (p ∷ parts_of sep s)) (sym (append-nil sub))
                    ∙ ap (λ ps. any_of ask (extend_first sub ps))
                        (sym (parts_of_cons sep c s true h))))
        | inr h ↦
            ap turn h
            ∙ (any_part-any_of (sub ++ (c ∷ [])) s
                ∙ (ap (any_of ask) (sym (extend_first_twice sub (c ∷ []) (parts_of sep s)))
                    ∙ ap (λ ps. any_of ask (extend_first sub ps))
                        (sym (parts_of_cons sep c s false h))))
      ]

  all_parts-every_of :
      (sub s : List ℕ) → all_parts ask sep sub s ≡ every_of ask (extend_first sub (parts_of sep s))
  unfolding all_parts every_of extend_first parts_of
  all_parts-every_of sub [] =
      sym (until_false_end (ask sub)) ∙ ap (λ p. every_of ask (p ∷ [])) (sym (append-nil sub))
  all_parts-every_of sub (c ∷ s) =
      let stop = until_false (ask sub) (all_parts ask sep [] s) in
      let turn : Bool → Option Bool =
        λ b. if b then stop else all_parts ask sep (sub ++ (c ∷ [])) s in
      elim (Bool-cases (c == sep)) [
        | inl h ↦
            ap turn h
            ∙ (ap (until_false (ask sub))
                  (all_parts-every_of [] s ∙ ap (every_of ask) (extend_first_nil sep s))
                ∙ (ap (λ p. every_of ask (p ∷ parts_of sep s)) (sym (append-nil sub))
                    ∙ ap (λ ps. every_of ask (extend_first sub ps))
                        (sym (parts_of_cons sep c s true h))))
        | inr h ↦
            ap turn h
            ∙ (all_parts-every_of (sub ++ (c ∷ [])) s
                ∙ (ap (every_of ask) (sym (extend_first_twice sub (c ∷ []) (parts_of sep s)))
                    ∙ ap (λ ps. every_of ask (extend_first sub ps))
                        (sym (parts_of_cons sep c s false h))))
      ]

-- the answers that a test of the parts gives
data Answers (ask : List ℕ → Option Bool) (g : List ℕ → Bool) : List (List ℕ) → Type 0 where
  answers_end : Answers ask g []
  answers_more :
      {p : List ℕ} {ps : List (List ℕ)}
      → ask p ≡ some (g p)
      → Answers ask g ps
      → Answers ask g (p ∷ ps)

unfoldable pub some_part : (List ℕ → Bool) → List (List ℕ) → Bool
some_part g [] = false
some_part g (p ∷ ps) = (not (is_nil p) && g p) || some_part g ps

unfoldable pub every_part : (List ℕ → Bool) → List (List ℕ) → Bool
every_part g [] = true
every_part g (p ∷ ps) = g p && every_part g ps

until_true_or :
    (empty b c : Bool)
    → (if empty then some c else until_true (some b) (some c)) ≡ some ((not empty && b) || c)
unfolding until_true
until_true_or true b c = refl
until_true_or false true c = refl
until_true_or false false c = refl

until_false_and : (b c : Bool) → until_false (some b) (some c) ≡ some (b && c)
unfolding until_false
until_false_and true c = refl
until_false_and false c = refl

module _ (ask : List ℕ → Option Bool) (g : List ℕ → Bool) where
  any_of-some_part : (ps : List (List ℕ)) → Answers ask g ps → any_of ask ps ≡ some (some_part g ps)
  unfolding any_of some_part
  any_of-some_part [] answers_end = refl
  any_of-some_part (p ∷ ps) (answers_more e a) =
      ap (λ o. if is_nil p then any_of ask ps else until_true o (any_of ask ps)) e
      ∙ (ap (λ o. if is_nil p then o else until_true (some (g p)) o) (any_of-some_part ps a)
          ∙ until_true_or (is_nil p) (g p) (some_part g ps))

  every_of-every_part :
      (ps : List (List ℕ)) → Answers ask g ps → every_of ask ps ≡ some (every_part g ps)
  unfolding every_of every_part
  every_of-every_part [] answers_end = refl
  every_of-every_part (p ∷ ps) (answers_more e a) =
      ap (λ o. until_false o (every_of ask ps)) e
      ∙ (ap (until_false (some (g p))) (every_of-every_part ps a)
          ∙ until_false_and (g p) (every_part g ps))

-- patterns that have a meaning: no NUL, and no `?` between two `*`
pub data Readable : List (List ℕ) → Type 0 where
  readable_end : Readable []
  readable_more :
      {p : List ℕ} {ps : List (List ℕ)}
      → NoNul p
      → PlainInside (merge_stars false false p)
      → Readable ps
      → Readable (p ∷ ps)

Readable-Answers :
    (copied : List ℕ → List ℕ) (source : List ℕ) (ps : List (List ℕ))
    → NoNul source
    → Readable ps
    → Answers
        (λ p. matching_string copied source p false)
        (λ p. glob (lower_all p) (lower_all source))
        ps
Readable-Answers copied source [] n readable_end = answers_end
Readable-Answers copied source (p ∷ ps) n (readable_more np inside r) =
    answers_more (matching_string-glob copied source p n np inside)
      (Readable-Answers copied source ps n r)

-- For strings without NUL, parts of the pattern string that have no `?` between two `*` when their
-- stars are merged, and where the case does not have to match. With `match_logic` 0 the answer is
-- whether some part between two `split_char`, other than an empty one, means the text; with another
-- value it is whether every part between two commas does, whatever `split_char` is. With
-- `ret_reversed` the answer is the opposite.
pub multi_matching-glob :
    (copied : List ℕ → List ℕ) (source patterns : List ℕ) (match_logic : ℕ) (ret_reversed : Bool)
    (split_char : ℕ)
    → NoNul source
    → Readable (parts_of (if match_logic == 0 then split_char else comma) patterns)
    → let means : List ℕ → Bool = λ p. glob (lower_all p) (lower_all source) in
      let answer : Bool =
        if match_logic == 0
        then some_part means (parts_of split_char patterns)
        else every_part means (parts_of comma patterns) in
      multi_matching copied source patterns match_logic ret_reversed false split_char
      ≡ some (if ret_reversed then not answer else answer)
unfolding multi_matching reversed
multi_matching-glob copied source patterns logic ret sep n r =
    let ask : List ℕ → Option Bool = λ p. matching_string copied source p false in
    let means : List ℕ → Bool = λ p. glob (lower_all p) (lower_all source) in
    let run : Bool → Option Bool = λ b.
      reversed ret (if b then any_part ask sep [] patterns else all_parts ask comma [] patterns) in
    let answer : Bool → Bool = λ b.
      if b
      then some_part means (parts_of sep patterns)
      else every_part means (parts_of comma patterns) in
    let flip : Bool → Option Bool = λ b. some (if ret then not b else b) in
    elim (Bool-cases (logic == 0)) [
      | inl h ↦
          (let here =
              subst (λ (b : Bool). Readable (parts_of (if b then sep else comma) patterns)) h r in
            ap run h
            ∙ (ap (reversed ret) (
                  any_part-any_of ask sep [] patterns
                  ∙ (ap (any_of ask) (extend_first_nil sep patterns)
                      ∙ any_of-some_part ask means (parts_of sep patterns)
                          (Readable-Answers copied source (parts_of sep patterns) n here)))
                ∙ sym (ap (λ b. flip (answer b)) h)))
      | inr h ↦
          (let here =
              subst (λ (b : Bool). Readable (parts_of (if b then sep else comma) patterns)) h r in
            ap run h
            ∙ (ap (reversed ret) (
                  all_parts-every_of ask comma [] patterns
                  ∙ (ap (every_of ask) (extend_first_nil comma patterns)
                      ∙ every_of-every_part ask means (parts_of comma patterns)
                          (Readable-Answers copied source (parts_of comma patterns) n here)))
                ∙ sym (ap (λ b. flip (answer b)) h)))
    ]
