-- ===== src/Util/StringUtil/Finding.antt =====
-- `finding_string` of network/util/string.hpp: the search of Knuth, Morris and Pratt. The indices
-- `j` and `k` of the source start at -1; here they are kept plus one.
pub mod Shifts
pub mod First
use network_core.Common.{
  ℕ, zero, suc, ◌+◌, ◌-◌, ◌*◌, Bool, true, false, not, ◌&&◌, ◌||◌, Option, none, some, List, [],
  ◌∷◌, ◌++◌, ltb, ◌==◌, if◌then◌else◌, length,
}
use network_core.Util.StringUtil.{char_at, question}

-- the result: a position, -1, or a loop of the model that ran out of fuel
pub data Finding : Type 0 where
  found_at : ℕ → Finding
  not_found : Finding
  out_of_fuel : Finding

-- the test of both loops, for the character that is compared with find[j - 1]
unfoldable pub advances : List ℕ → ℕ → ℕ → Bool
unfolding char_at
advances find j c = (j == 0) || ((char_at find (j - 1) == question) || (c == char_at find (j - 1)))

-- the loop that fills `next`; `last` is n - 1
unfoldable pub build_next : ℕ → List ℕ → ℕ → ℕ → ℕ → List ℕ → Option (List ℕ)
unfolding advances char_at
build_next zero find last j k next = if ltb j last then none else some next
build_next (suc fuel) find last j k next =
    let forward = build_next fuel find last (j + 1) (k + 1) (next ++ ((k + 1) ∷ [])) in
    let back = build_next fuel find last j (char_at next (k - 1)) next in
    if ltb j last then (if advances find k (char_at find j) then forward else back) else some next

-- the loop over the source, with `i` and `j` at its end
unfoldable pub scan : ℕ → List ℕ → List ℕ → List ℕ → ℕ → ℕ → Option (ℕ × ℕ)
unfolding advances char_at
scan zero source find next i j =
    if ltb i (length source) && ltb j (length find + 1) then none else some (i, j)
scan (suc fuel) source find next i j =
    let forward = scan fuel source find next (i + 1) (j + 1) in
    let back = scan fuel source find next i (char_at next (j - 1)) in
    if ltb i (length source) && ltb j (length find + 1)
    then (if advances find j (char_at source i) then forward else back)
    else some (i, j)

unfoldable pub scanned : ℕ → Option (ℕ × ℕ) → Finding
scanned n none = out_of_fuel
scanned n (some (i, j)) = if ltb n j then found_at (i - n) else not_found

unfoldable pub search : List ℕ → List ℕ → ℕ → Option (List ℕ) → Finding
unfolding scan scanned
search source find start none = out_of_fuel
search source find start (some next) =
    scanned (length find) (scan (2 * length source + 2) source find next start 1)

unfoldable pub finding_string : List ℕ → List ℕ → ℕ → Finding
unfolding build_next search
finding_string source find start =
    if ltb (length source) (start + length find)
    then not_found
    else if length find == 0
    then found_at start
    else search source find start (build_next (2 * length find) find (length find - 1) 0 0 (0 ∷ []))
