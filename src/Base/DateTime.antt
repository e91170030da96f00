-- ===== src/Base/DateTime.antt =====
-- `date_time` of network/base/date_time.hpp, over the fields that boost gives for its time: the
-- text of a time by a format and without one, and the days of a month.
pub mod Printing
pub mod Calendar
mod Tests
use network_core.Common.{
  ℕ, zero, suc, ◌+◌, ◌-◌, Bool, true, false, ◌&&◌, ◌||◌, not, List, [], ◌∷◌, ◌++◌, ltb, leb, ◌==◌,
  if◌then◌else◌, ◌%◌,
}
use network_core.Util.StringUtil.{char_at}

-- what year(), month(), ... of the time give, in the local zone; years before 0 have no time
pub record DateTime : Type 0 where
  pub year : ℕ
  pub month : ℕ
  pub day : ℕ
  pub hour : ℕ
  pub minute : ℕ
  pub second : ℕ
  pub ms : ℕ

-- what fmt writes: a number, a number filled to a width with 0, and the hours of the zone
pub record Writer : Type 0 where
  pub decimal : ℕ → List ℕ
  pub pad : ℕ → ℕ → List ℕ
  pub zone_hours : List ℕ

-- the hour on a clock of twelve
unfoldable pub half_day : ℕ → ℕ
half_day hour = if ltb 12 hour then hour - 12 else hour

unfoldable pub after_brace : List ℕ → List ℕ
after_brace [] = []
after_brace (c ∷ s) = if c == 125 then s else c ∷ s

module _ (w : Writer) (t : DateTime) where
  unfoldable pub to_string : List ℕ
  to_string =
      w.decimal t.year
      ++ (45
          ∷ (w.pad t.month 2
              ++ (45
                  ∷ (w.pad t.day 2
                      ++ (32
                          ∷ (w.pad t.hour 2
                              ++ (58 ∷ (w.pad t.minute 2 ++ (58 ∷ w.pad t.second 2)))))))))

  -- what one character of the format writes, `m` before `s` excepted
  unfoldable pub write_field : ℕ → List ℕ
  unfolding half_day
  write_field c =
      if c == 89
      then w.pad t.year 4
      else if c == 121
      then w.pad (t.year % 100) 4
      else if c == 109
      then w.pad t.month 2
      else if (c == 100) || (c == 68)
      then w.pad t.day 2
      else if c == 104
      then w.pad (half_day t.hour) 2
      else if c == 72
      then w.pad t.hour 2
      else if c == 77
      then w.pad t.minute 2
      else if (c == 115) || (c == 83)
      then w.pad t.second 2
      else if (c == 122) || (c == 90)
      then w.zone_hours
      else c ∷ []

  -- the loop: what is written, and where `s` is at its end; the flag is that `s` was moved past the
  -- `s` of `ms`
  unfoldable pub format_loop : Bool → List ℕ → List ℕ × List ℕ
  unfolding write_field char_at
  format_loop skip [] = ([], [])
  format_loop skip (c ∷ s) =
      let plain = format_loop false s in
      let past = format_loop true s in
      if skip
      then plain
      else if c == 125
      then ([], c ∷ s)
      else if (c == 109) && (char_at s 0 == 115)
      then (w.pad t.ms 3 ++ past.0, past.1)
      else (write_field c ++ plain.0, plain.1)

  -- what is written and the new `format_str`
  unfoldable pub format : Bool → List ℕ → List ℕ × List ℕ
  unfolding format_loop after_brace char_at to_string
  format self_to_string s =
      let start = if char_at s 0 == 58 then after_colon s else s in
      let (written, left) = format_loop false start in
      if (char_at s 0 == 58) || self_to_string then (written, after_brace left) else (to_string, s)
    where
      after_colon : List ℕ → List ℕ
      after_colon [] = []
      after_colon (c ∷ r) = r

  -- `to_string` with a format
  unfoldable pub to_string_by : List ℕ → List ℕ
  unfolding format
  to_string_by format_str = (format true format_str).0

-- `day_in_month`, for a year from 0 on and any month that is not negative
abbrev pub day_of_month : List ℕ
day_of_month =
    31 ∷ (31 ∷ (28 ∷ (31 ∷ (30 ∷ (31 ∷ (30 ∷ (31 ∷ (31 ∷ (30 ∷ (31 ∷ (30 ∷ (31 ∷ []))))))))))))

unfoldable pub day_in_month : ℕ → ℕ → ℕ
unfolding char_at
day_in_month year month =
    let m = if ltb month 1 || ltb 12 month then 0 else month in
    if (m == 2) && (((year % 4 == 0) && not (year % 100 == 0)) || (year % 400 == 0))
    then 29
    else char_at day_of_month m
