-- ===== src/Base/DateTime/Calendar.antt =====
-- The days of the months and those of the years.
use network_core.Common.{
  ℕ, zero, suc, ◌+◌, ◌-◌, ◌*◌, ◌/◌, ◌%◌, ◌≡◌, refl, ap, ◌∙◌, Bool, true, false, not, ◌&&◌, ◌||◌,
  ◌==◌, if◌then◌else◌, arith, Bool-cases, inl, inr,
}
use network_core.Base.DateTime.{day_in_month}
use network_core.Util.StringUtil.{char_at}

-- the days of months `month + 1`, ..., `month + count`
unfoldable pub days_of : ℕ → ℕ → ℕ → ℕ
days_of year month zero = 0
days_of year month (suc count) = days_of year month count + day_in_month year (month + suc count)

-- the days before the years from 1 on, in the proleptic calendar
unfoldable pub days_before : ℕ → ℕ
days_before year = 365 * year + year / 4 - year / 100 + year / 400

abbrev leap : ℕ → Bool
leap year = ((year % 4 == 0) && not (year % 100 == 0)) || (year % 400 == 0)

total :
    (b : Bool)
    → 31 + (if b then 29 else 28) + 31 + 30 + 31 + 30 + 31 + 31 + 30 + 31 + 30 + 31
      ≡ (if b then 366 else 365)
total true = refl
total false = refl

sum_of : (b : Bool) (year : ℕ) → leap year ≡ b → days_of year 0 12 ≡ (if b then 366 else 365)
unfolding days_of day_in_month char_at
sum_of b year h =
    ap (λ (x : Bool). 31 + (if x then 29 else 28) + 31 + 30 + 31 + 30 + 31 + 31 + 30 + 31 + 30 + 31)
      h
    ∙ total b

-- The twelve months of a year have the days by which the count of the calendar grows over it.
pub days_of-year : (year : ℕ) → days_before year + days_of (suc year) 0 12 ≡ days_before (suc year)
unfolding days_before
days_of-year year = elim (Bool-cases (leap (suc year))) [
  | inl h ↦ ground (arith, h, sum_of true (suc year) h)
  | inr h ↦ ground (arith, h, sum_of false (suc year) h)
]
