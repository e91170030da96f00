-- ===== src/Base/DateTime/Printing.antt =====
-- The text of a time.
use network_core.Common.{
  ℕ, suc, ◌≡◌, refl, sym, ap, ◌∙◌, Bool, true, false, ◌&&◌, List, [], ◌∷◌, ◌++◌, append-nil, ◌==◌,
  if◌then◌else◌,
}
use network_core.Util.StringUtil.{char_at}
use network_core.Base.DateTime.{
  DateTime, Writer, to_string, write_field, format_loop, after_brace, format, to_string_by,
}

-- no `}` among the characters
abbrev pub NoBrace : List ℕ → Type 0
NoBrace spec = (i : ℕ) → (char_at spec i == 125) ≡ false

and_false : (a : Bool) → (a && false) ≡ false
and_false true = refl
and_false false = refl

module _ (w : Writer) (t : DateTime) where
  -- one turn, by its two tests
  turn : (c : ℕ) (s : List ℕ) → Bool → Bool → List ℕ × List ℕ
  unfolding format_loop
  turn c s brace ms =
      if brace
      then ([], c ∷ s)
      else if ms
      then (w.pad t.ms 3 ++ (format_loop w t true s).0, (format_loop w t true s).1)
      else (write_field w t c ++ (format_loop w t false s).0, (format_loop w t false s).1)

  -- the loop over a format without `}` ends at its end
  format_loop-brace :
      (spec rest : List ℕ)
      → NoBrace spec
      → format_loop w t false (spec ++ (125 ∷ rest)) ≡ ((format_loop w t false spec).0, 125 ∷ rest)
  unfolding format_loop char_at turn
  format_loop-brace [] rest n = refl
  format_loop-brace (c ∷ []) rest n =
      ap (λ (b : Bool). turn c (125 ∷ rest) b ((c == 109) && false)) (n 0)
      ∙ (ap (turn c (125 ∷ rest) false) (and_false (c == 109))
          ∙ sym (
              ap (λ (b : Bool). ((turn c [] b ((c == 109) && false)).0, 125 ∷ rest)) (n 0)
              ∙ ap (λ b. ((turn c [] false b).0, 125 ∷ rest)) (and_false (c == 109))))
  format_loop-brace (c ∷ (d ∷ s)) rest n =
      let m = (c == 109) && (d == 115) in
      let before = d ∷ (s ++ (125 ∷ rest)) in
      let step : (b : Bool) → turn c before false b ≡ ((turn c (d ∷ s) false b).0, 125 ∷ rest) =
        (λ b. elim b as (λ b. turn c before false b ≡ ((turn c (d ∷ s) false b).0, 125 ∷ rest)) [
          | true ↦
              ap (λ (r : List ℕ × List ℕ). (w.pad t.ms 3 ++ r.0, r.1))
                (format_loop-brace s rest (λ i. n (suc (suc i))))
          | false ↦
              ap (λ (r : List ℕ × List ℕ). (write_field w t c ++ r.0, r.1))
                (format_loop-brace (d ∷ s) rest (λ i. n (suc i)))
        ]) in
      ap (λ (b : Bool). turn c before b m) (n 0)
      ∙ (step m ∙ sym (ap (λ (b : Bool). ((turn c (d ∷ s) b m).0, 125 ∷ rest)) (n 0)))

  -- A format that stands between `:` and the next `}` writes what `to_string` writes for it, and
  -- leaves the text to be formatted just behind that `}`.
  pub format-brace :
      (self_to_string : Bool) (spec rest : List ℕ)
      → NoBrace spec
      → format w t self_to_string (58 ∷ (spec ++ (125 ∷ rest)))
        ≡ (to_string_by w t (58 ∷ spec), rest)
  unfolding format to_string_by char_at after_brace
  format-brace self_to_string spec rest n =
      ap (λ (r : List ℕ × List ℕ). (r.0, after_brace r.1)) (format_loop-brace spec rest n)

  -- By the format "Y-m-d H:M:S" a time is written as it is without a format, if the year fills its
  -- four places.
  pub to_string_by-to_string :
      w.pad t.year 4 ≡ w.decimal t.year
      → to_string_by w t
          (89 ∷ (45 ∷ (109 ∷ (45 ∷ (100 ∷ (32 ∷ (72 ∷ (58 ∷ (77 ∷ (58 ∷ (83 ∷ [])))))))))))
        ≡ to_string w t
  unfolding to_string_by to_string char_at
  to_string_by-to_string h =
      ap
        (λ (year : List ℕ).
          year
          ++ (45
              ∷ (w.pad t.month 2
                  ++ (45
                      ∷ (w.pad t.day 2
                          ++ (32
                              ∷ (w.pad t.hour 2
                                  ++ (58
                                      ∷ (w.pad t.minute 2
                                          ++ (58 ∷ (w.pad t.second 2 ++ [])))))))))))
        h
      ∙ ap
          (λ (second : List ℕ).
            w.decimal t.year
            ++ (45
                ∷ (w.pad t.month 2
                    ++ (45
                        ∷ (w.pad t.day 2
                            ++ (32
                                ∷ (w.pad t.hour 2
                                    ++ (58 ∷ (w.pad t.minute 2 ++ (58 ∷ second))))))))))
          (append-nil (w.pad t.second 2))
