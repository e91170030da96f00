-- ===== src/Util/StringUtil/Matching.antt =====
-- `match` and `matching_string` of network/util/string.hpp: a text against a pattern with `*` and
-- `?`. An offset into the pattern or the source is what is left of it.
pub mod Glob
pub mod Segments
pub mod Deciding
pub mod Merging
use network_core.Common.{
  ℕ, zero, suc, ◌+◌, ◌-◌, Bool, true, false, not, ◌&&◌, ◌||◌, Option, none, some, List, [], ◌∷◌,
  ltb, leb, ◌==◌, if◌then◌else◌, length, drop,
}
use network_core.Util.StringUtil.{char_at, c_string, star, question}
use network_core.Util.StringUtil.Finding.{Finding, found_at, not_found, out_of_fuel, finding_string}

unfoldable pub lower : Bool → ℕ → ℕ
lower matchcase c = if matchcase then c else if leb 65 c && leb c 90 then c + 32 else c

-- the copy of the text where the case does not have to match
unfoldable pub lower_all : List ℕ → List ℕ
unfolding lower
lower_all [] = []
lower_all (c ∷ s) = lower false c ∷ lower_all s

-- the copy of the pattern, in which a run of `*` is one; the flag says that one was just copied
unfoldable pub merge_stars : Bool → Bool → List ℕ → List ℕ
unfolding lower
merge_stars matchcase after_star [] = []
merge_stars matchcase after_star (c ∷ p) =
    let starred = merge_stars matchcase true p in
    let other = lower matchcase c ∷ merge_stars matchcase false p in
    if c == star then (if after_star then starred else star ∷ starred) else other

-- a pattern up to its first `*`, and from there on
unfoldable pub segment : List ℕ → List ℕ
segment [] = []
segment (c ∷ p) = let rest = segment p in if c == star then [] else c ∷ rest

unfoldable pub after_segment : List ℕ → List ℕ
after_segment [] = []
after_segment (c ∷ p) = let rest = after_segment p in if c == star then c ∷ p else rest

-- the last part against the end of the source, from the last of its `k` characters back
unfoldable pub match_back : ℕ → List ℕ → List ℕ → Bool
unfolding char_at
match_back zero part source = true
match_back (suc k) part source =
    let rest = match_back k part source in
    if (char_at part k == question)
      || (char_at part k == char_at source (length source - length part + k))
    then rest
    else false

unfoldable pub is_nil : List ℕ → Bool
is_nil [] = true
is_nil (c ∷ s) = false

unfoldable pub after_found : (ℕ → Option Bool) → Finding → Option Bool
after_found next (found_at pos) = next pos
after_found next not_found = some false
after_found next out_of_fuel = none

-- one turn on an ordinary character or on `?`, by whether this character fits: the last one of the
-- pattern must be the last one of the source
unfoldable pub at_character : Bool → List ℕ → List ℕ → Option Bool → Option Bool
unfolding is_nil
at_character fits p source rest =
    if not fits then some false else if is_nil p && leb 2 (length source) then some false else rest

unfoldable pub fits_one : ℕ → List ℕ → Bool
unfolding char_at
fits_one c source = if c == question then not (char_at source 0 == 0) else char_at source 0 == c

-- the loop of `matching_string`, over what is left of the pattern and of the source `whole`; none is
-- a loop of the model that ran out of fuel
unfoldable pub match_loop : ℕ → List ℕ → List ℕ → List ℕ → Option Bool
unfolding segment after_segment match_back is_nil finding_string at_character fits_one after_found
match_loop fuel whole [] source = some true
match_loop zero whole (c ∷ p) source = none
match_loop (suc fuel) whole (c ∷ p) source =
    let part = segment p in
    let n = length part in
    let one = match_loop fuel whole p (drop 1 source) in
    let next = λ (pos : ℕ). match_loop fuel whole (drop (n - 1) p) (drop (pos + n - 1) source) in
    if c == star
    then (if is_nil p
        then some true
        else if ltb (length source) n
        then some false
        else if is_nil (after_segment p)
        then some (match_back n part whole)
        else after_found next (finding_string source part 0))
    else at_character (fits_one c source) p source one

-- Where the case has to match, the copy of the text is made by `*(tmp_src + i) = *(source + i++)`,
-- whose effect the language leaves open before C++17; what it makes of a text is the argument `copied`.
unfoldable pub matching_string : (List ℕ → List ℕ) → List ℕ → List ℕ → Bool → Option Bool
unfolding match_loop merge_stars lower_all is_nil
matching_string copied source pattern matchcase =
    let text = if matchcase then copied source else lower_all source in
    let merged = merge_stars matchcase false pattern in
    if is_nil pattern then some (is_nil source) else match_loop (length merged) text merged text
