-- ===== src/Util/StringUtil.antt =====
-- `string_util` of network/util/string.hpp. A C string is the list of its characters before the
-- NUL, and a character behind its end is 0.
pub mod Finding
pub mod Matching
pub mod Extending
pub mod MultiMatching
use network_core.Common.{ℕ, zero, suc, List, [], ◌∷◌, ◌==◌, if◌then◌else◌}

unfoldable pub char_at : List ℕ → ℕ → ℕ
char_at [] i = 0
char_at (c ∷ s) zero = c
char_at (c ∷ s) (suc i) = char_at s i

-- what `c_str` gives
unfoldable pub c_string : List ℕ → List ℕ
c_string [] = []
c_string (c ∷ s) = let rest = c_string s in if c == 0 then [] else c ∷ rest

abbrev pub star : ℕ
star = 42

abbrev pub question : ℕ
question = 63
