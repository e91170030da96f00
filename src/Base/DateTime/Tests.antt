-- ===== src/Base/DateTime/Tests.antt =====
-- The theorems on date_time.hpp at concrete inputs.
use network_core.Common.{ℕ, zero, suc, ◌+◌, ◌≡◌, refl, false, List, [], ◌∷◌, ◌++◌, replicate, ◌-◌}
use network_core.Util.StringUtil.{char_at}
use network_core.Base.DateTime.{DateTime, Writer, to_string, format, to_string_by}
use network_core.Base.DateTime.Printing.{NoBrace, format-brace, to_string_by-to_string}
use network_core.Base.DateTime.Calendar.{days_before, days_of, days_of-year}

-- numbers in unary, filled with 0
abbrev tally : Writer
tally = record {
  decimal = λ n. replicate n 49;
  pad = λ n width. replicate (width - n) 48 ++ replicate n 49;
  zone_hours = 43 ∷ (48 ∷ (56 ∷ []));
}

abbrev noon : DateTime
noon = record { year = 5; month = 2; day = 3; hour = 12; minute = 1; second = 4; ms = 6 }

-- "h:ms"
abbrev spec : List ℕ
spec = 104 ∷ (58 ∷ (109 ∷ (115 ∷ [])))

spec-NoBrace : NoBrace spec
unfolding char_at
spec-NoBrace zero = refl
spec-NoBrace (suc zero) = refl
spec-NoBrace (suc (suc zero)) = refl
spec-NoBrace (suc (suc (suc zero))) = refl
spec-NoBrace (suc (suc (suc (suc i)))) = refl

format-brace_example :
    format tally noon false (58 ∷ (spec ++ (125 ∷ (33 ∷ []))))
    ≡ (replicate 12 49 ++ (58 ∷ replicate 6 49), 33 ∷ [])
unfolding to_string_by
format-brace_example = format-brace tally noon false spec (33 ∷ []) spec-NoBrace

to_string_by-to_string_example :
    to_string_by tally noon
      (89 ∷ (45 ∷ (109 ∷ (45 ∷ (100 ∷ (32 ∷ (72 ∷ (58 ∷ (77 ∷ (58 ∷ (83 ∷ [])))))))))))
    ≡ to_string tally noon
to_string_by-to_string_example = to_string_by-to_string tally noon refl

days_of-year_example : days_before 2023 + days_of 2024 0 12 ≡ days_before 2024
days_of-year_example = days_of-year 2023
