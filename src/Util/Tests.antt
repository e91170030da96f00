-- ===== src/Util/Tests.antt =====
-- The theorems on network/util/string.hpp at concrete inputs, and runs of its search.
use network_core.Common.{
  ℕ, zero, suc, ◌≡◌, refl, true, false, some, List, [], ◌∷◌, arith, inl, inr, ◌+◌, ◌++◌, Bool,
  Option, length,
}
use network_core.Util.StringUtil.{char_at}
use network_core.Util.StringUtil.Finding.{found_at, not_found, finding_string}
use network_core.Util.StringUtil.Finding.Shifts.{Plain}
use network_core.Util.StringUtil.Finding.First.{FindsFirst, finding_string-FindsFirst}
use network_core.Util.StringUtil.Matching.{
  lower_all, merge_stars, segment, after_segment, matching_string,
}
use network_core.Util.StringUtil.Matching.Glob.{glob}
use network_core.Util.StringUtil.Matching.Deciding.{NoNul}
use network_core.Util.StringUtil.Matching.Merging.{PlainInside, matching_string-glob}
use network_core.Util.StringUtil.Extending.{extend, extend_any}
use network_core.Util.StringUtil.Extending.Ending.{extend_any-ends}
use network_core.Util.StringUtil.MultiMatching.{
  multi_matching, some_part, parts_of, Readable, readable_end, readable_more, multi_matching-glob,
}

-- "abac" in "aababac"
abbrev abac : List ℕ
abac = 97 ∷ (98 ∷ (97 ∷ (99 ∷ [])))

abbrev aababac : List ℕ
aababac = 97 ∷ (97 ∷ (98 ∷ (97 ∷ (98 ∷ (97 ∷ (99 ∷ []))))))

abac-Plain : Plain abac
unfolding char_at
abac-Plain zero = refl
abac-Plain (suc zero) = refl
abac-Plain (suc (suc zero)) = refl
abac-Plain (suc (suc (suc zero))) = refl
abac-Plain (suc (suc (suc (suc i)))) = refl

finding_string-FindsFirst_example : FindsFirst aababac abac 1 (finding_string aababac abac 1)
finding_string-FindsFirst_example = finding_string-FindsFirst aababac abac 1 abac-Plain

finding_string_run : finding_string aababac abac 1 ≡ found_at 3
unfolding finding_string
finding_string_run = refl

-- "ab.c" against "**b*C"
abbrev file_name : List ℕ
file_name = 97 ∷ (98 ∷ (46 ∷ (99 ∷ [])))

abbrev wildcard : List ℕ
wildcard = 42 ∷ (42 ∷ (98 ∷ (42 ∷ (67 ∷ []))))

file_name-NoNul : NoNul file_name
unfolding char_at
file_name-NoNul zero l = refl
file_name-NoNul (suc zero) l = refl
file_name-NoNul (suc (suc zero)) l = refl
file_name-NoNul (suc (suc (suc zero))) l = refl
file_name-NoNul (suc (suc (suc (suc i)))) l = absurd (omega (arith, l))

wildcard-NoNul : NoNul wildcard
unfolding char_at
wildcard-NoNul zero l = refl
wildcard-NoNul (suc zero) l = refl
wildcard-NoNul (suc (suc zero)) l = refl
wildcard-NoNul (suc (suc (suc zero))) l = refl
wildcard-NoNul (suc (suc (suc (suc zero)))) l = refl
wildcard-NoNul (suc (suc (suc (suc (suc i))))) l = absurd (omega (arith, l))

b-Plain : Plain (98 ∷ [])
unfolding char_at
b-Plain zero = refl
b-Plain (suc i) = refl

wildcard-PlainInside : PlainInside (merge_stars false false wildcard)
unfolding char_at merge_stars segment after_segment
wildcard-PlainInside zero h = inr b-Plain
wildcard-PlainInside (suc zero) h = absurd (omega (arith, h))
wildcard-PlainInside (suc (suc zero)) h = inl refl
wildcard-PlainInside (suc (suc (suc zero))) h = absurd (omega (arith, h))
wildcard-PlainInside (suc (suc (suc (suc i)))) h = absurd (omega (arith, h))

matching_string-glob_example : matching_string (λ s. s) file_name wildcard false ≡ some true
unfolding glob lower_all
matching_string-glob_example =
    matching_string-glob (λ s. s) file_name wildcard file_name-NoNul wildcard-NoNul
      wildcard-PlainInside

-- A `?` between two `*` goes wrong: "a?b" is not found in "aaab", where it stands at 1, and
-- "*a?b*" does not match that text.
abbrev aaab : List ℕ
aaab = 97 ∷ (97 ∷ (97 ∷ (98 ∷ [])))

abbrev a_any_b : List ℕ
a_any_b = 97 ∷ (63 ∷ (98 ∷ []))

finding_string-misses : finding_string aaab a_any_b 0 ≡ not_found
unfolding finding_string
finding_string-misses = refl

abbrev around : List ℕ
around = 42 ∷ (97 ∷ (63 ∷ (98 ∷ (42 ∷ []))))

matching_string-misses : matching_string (λ s. s) aaab around true ≡ some false
unfolding matching_string
matching_string-misses = refl

glob-matches : glob around aaab ≡ true
unfolding glob
glob-matches = refl

-- "**b*C" alone, which the text "ab.c" is, and the opposite answer
wildcard-Readable : Readable (parts_of 32 wildcard)
unfolding parts_of
wildcard-Readable = readable_more wildcard-NoNul wildcard-PlainInside readable_end

multi_matching-glob_example :
    multi_matching (λ s. s) file_name wildcard 0 true false 32 ≡ some false
unfolding some_part parts_of glob lower_all
multi_matching-glob_example =
    multi_matching-glob (λ s. s) file_name wildcard 0 true 32 file_name-NoNul wildcard-Readable

-- the text "ab.c" and the patterns "x a*": the second is a match; with the comma, the one part
-- "x a*" is none
multi_matching_run :
    multi_matching (λ s. s) file_name (120 ∷ (32 ∷ (97 ∷ (42 ∷ [])))) 0 false false 32 ≡ some true
unfolding multi_matching
multi_matching_run = refl

multi_matching_all_run :
    multi_matching (λ s. s) file_name (120 ∷ (32 ∷ (97 ∷ (42 ∷ [])))) 1 false false 32 ≡ some false
unfolding multi_matching
multi_matching_all_run = refl

-- "a<b>" with "xy" for what stands in the marks
abbrev marked : List ℕ
marked = 97 ∷ (60 ∷ (98 ∷ (62 ∷ [])))

abbrev to_xy : List ℕ → Option (List ℕ)
to_xy v = some (120 ∷ (121 ∷ []))

extend_any-ends_example :
    (r : List ℕ × Bool) × (extend_any (60 ∷ []) (62 ∷ []) to_xy (length marked + 1) marked ≡ some r)
extend_any-ends_example = extend_any-ends (60 ∷ []) (62 ∷ []) to_xy (omega arith) marked

extend_any_run :
    extend_any (60 ∷ []) (62 ∷ []) to_xy 5 marked ≡ some (97 ∷ (120 ∷ (121 ∷ [])), true)
unfolding extend_any
extend_any_run = refl

-- with one mark for both, "%b%c" keeps "b%c", and the function is asked about "b%c"
extend_one_mark_run :
    extend (37 ∷ []) (37 ∷ []) (λ v. some v) (37 ∷ (98 ∷ (37 ∷ (99 ∷ []))))
    ≡ ((98 ∷ (37 ∷ (99 ∷ []))) ++ (98 ∷ (37 ∷ (99 ∷ []))), true)
unfolding extend
extend_one_mark_run = refl
