-- ===== src/Util/StringUtil/Finding/First.antt =====
-- finding_string finds the first place, for a string without a question mark.
use network_core.Common.{
  ℕ, zero, suc, ◌+◌, ◌-◌, ◌*◌, ◌<◌, ◌≤◌, ◌≡◌, refl, sym, ap, subst, ◌∙◌, Bool, true, false, ◌&&◌,
  Option, none, some, List, [], ◌∷◌, ltb, ◌==◌, if◌then◌else◌, length, arith, Bool-cases, inl, inr,
}
use network_core.Util.StringUtil.{char_at}
use network_core.Util.StringUtil.Finding.{
  Finding, found_at, not_found, out_of_fuel, advances, build_next, scan, scanned, search,
  finding_string,
}
use network_core.Util.StringUtil.Finding.Shifts.{
  Plain, Table, Least, order, lt_of, ge_of, lt_or_eq, advances-true, advances-false, build_next_lem,
  first-State,
}

-- `find` stands in `source` at `q`
pub record Occurs (source find : List ℕ) (q : ℕ) : Type 0 where
  pub fits : q + length find ≤ length source
  pub same : (t : ℕ) → t < length find → char_at source (q + t) ≡ char_at find t

-- the first place from `start` on, or that there is none
abbrev pub FindsFirst : (source find : List ℕ) → ℕ → Finding → Type 0
FindsFirst source find start (found_at p) =
    Occurs source find p × (start ≤ p) × ((q : ℕ) → start ≤ q → q < p → Occurs source find q → ⊥)
FindsFirst source find start not_found = (q : ℕ) → start ≤ q → Occurs source find q → ⊥
FindsFirst source find start out_of_fuel = ⊥

pub ge_iff : (a b : ℕ) → b ≤ a → ltb a b ≡ false
ge_iff a b h = ground (arith, h)

module _ (source find : List ℕ) (start : ℕ) (plain : Plain find) where
  -- the loop at `i` and `j`: the place `p` is not refuted yet, and those before it are
  record Scan (i j p : ℕ) : Type 0 where
    place_eq : p + j ≡ i + 1
    from : start ≤ p
    j_le : j ≤ length find + 1
    i_le : i ≤ length source
    matched : (t : ℕ) → t + 1 < j → char_at source (p + t) ≡ char_at find t
    refuted : (q : ℕ) → start ≤ q → q < p → Occurs source find q → ⊥

  Scan-forward :
      (i j p : ℕ)
      → Scan i j p
      → i < length source
      → j ≤ length find
      → advances find j (char_at source i) ≡ true
      → Scan (i + 1) (j + 1) p
  Scan-forward i j p s c b h = record {
    place_eq = omega (arith, s.place_eq);
    from = s.from;
    j_le = omega (arith, b);
    i_le = omega (arith, c);
    matched = λ t l. elim (lt_or_eq (t + 1) j (omega (arith, l))) [
      | inl old ↦ s.matched t old
      | inr new ↦ (elim (advances-true find plain j (char_at source i) h) [
        | inl z ↦ absurd (omega (arith, z, new))
        | inr r ↦
            ap (char_at source) (omega (arith, s.place_eq, new))
            ∙ (r.1 ∙ ap (char_at find) (omega (arith, new)))
      ])
    ];
    refuted = s.refuted;
  }

  Scan-back :
      (i j p e k : ℕ)
      → Scan i j p
      → j ≤ length find
      → 1 ≤ j
      → (char_at source i ≡ char_at find (j - 1) → ⊥)
      → k + e ≡ j
      → Least (char_at find) e (j - 1)
      → Scan i k (p + e)
  Scan-back i j p e k s b large differs eq l = record {
    place_eq = omega (arith, s.place_eq, eq);
    from = omega (arith, s.from);
    j_le = omega (arith, b, eq);
    i_le = s.i_le;
    matched = λ t h.
        ap (char_at source) (omega arith)
        ∙ s.matched (t + e) (omega (arith, h, eq))
        ∙ l.agrees t (omega (arith, h, eq));
    refuted = λ q f h o. elim (order q p) [
      | inl lt ↦ s.refuted q f lt o
      | inr (inl same) ↦ differs (
          ap (char_at source) (omega (arith, same, s.place_eq, large))
          ∙ o.same (j - 1) (omega (arith, b, large)))
      | inr (inr gt) ↦ l.least (q - p) (omega (arith, gt)) (omega (arith, h, gt)) (λ t b'.
          sym (s.matched (t + (q - p)) (omega (arith, b')))
          ∙ ap (char_at source) (omega (arith, gt))
          ∙ o.same t (omega (arith, b', b)))
    ];
  }

  Scan-end :
      (i j p : ℕ)
      → Scan i j p
      → (ltb i (length source) && ltb j (length find + 1)) ≡ false
      → FindsFirst source find start (scanned (length find) (some (i, j)))
  unfolding scanned
  Scan-end i j p s h =
      let n = length find in
      let result : Bool → Finding = λ b. if b then found_at (i - n) else not_found in
      elim (Bool-cases (ltb n j)) [
        | inl full ↦
            (let long = lt_of n j full in
              let here : i - n ≡ p = omega (arith, long, s.j_le, s.place_eq) in
              subst (FindsFirst source find start) (sym (ap result full ∙ ap found_at here)) (
                record {
                  fits = omega (arith, long, s.j_le, s.place_eq, s.i_le);
                  same = λ t l. s.matched t (omega (arith, l, long));
                },
                s.from,
                s.refuted,
              ))
        | inr short ↦
            (let few = ge_of n j short in
              let over : length source ≤ i = ge_of i (length source) (ground (arith, h, few)) in
              subst (FindsFirst source find start) (sym (ap result short)) (λ q f o.
                elim (order q p) [
                  | inl lt ↦ s.refuted q f lt o
                  | inr (inl same) ↦ absurd (omega (arith, o.fits, same, few, over, s.place_eq))
                  | inr (inr gt) ↦ absurd (omega (arith, o.fits, gt, few, over, s.place_eq))
                ]))
      ]

  scan_lem :
      (fuel i j p : ℕ) (next : List ℕ)
      → Table find plain next
      → length next ≡ length find
      → Scan i j p
      → 2 * (length source - i) + j ≤ fuel
      → FindsFirst source find start (scanned (length find) (scan fuel source find next i j))
  unfolding scan
  scan_lem zero i j p next table size s f =
      let stop : (ltb i (length source) && ltb j (length find + 1)) ≡ false =
        ground (arith, ge_iff i (length source) (omega (arith, f))) in
      subst
        (λ (b : Bool).
          FindsFirst source find start (scanned (length find) (if b then none else some (i, j))))
        (sym stop) (Scan-end i j p s stop)
  scan_lem (suc fuel) i j p next table size s f =
      let n = length find in
      let forward = scan fuel source find next (i + 1) (j + 1) in
      let back = scan fuel source find next i (char_at next (j - 1)) in
      let Good = λ (r : Option (ℕ × ℕ)). FindsFirst source find start (scanned n r) in
      let choose : Bool → Option (ℕ × ℕ) = λ b. if b then forward else back in
      let enter : Bool → Option (ℕ × ℕ) =
        λ b. if b then choose (advances find j (char_at source i)) else some (i, j) in
      elim (Bool-cases (ltb i (length source) && ltb j (n + 1))) [
        | inr stop ↦ subst Good (sym (ap enter stop)) (Scan-end i j p s stop)
        | inl go ↦
            (let inside : i < length source = lt_of i (length source) (ground (arith, go)) in
              let short : j < n + 1 = lt_of j (n + 1) (ground (arith, go)) in
              elim (Bool-cases (advances find j (char_at source i))) [
                | inl fits ↦ subst Good (sym (ap enter go ∙ ap choose fits)) (
                    scan_lem fuel (i + 1) (j + 1) p next table size
                      (Scan-forward i j p s inside (omega (arith, short)) fits)
                      (omega (arith, f, inside)))
                | inr fails ↦
                    (let (large, differs) = advances-false find plain j (char_at source i) fails in
                      let (e, eq, l) = table (j - 1) (omega (arith, large, short, size)) in
                      let k = char_at next (j - 1) in
                      let whole : k + e ≡ j = omega (arith, eq, large) in
                      subst Good (sym (ap enter go ∙ ap choose fails)) (
                        scan_lem fuel i k (p + e) next table size
                          (Scan-back i j p e k s (omega (arith, short)) large differs whole l)
                          (omega (arith, f, whole, l.positive))))
              ])
      ]

  first-Scan : start + length find ≤ length source → Scan start 1 start
  first-Scan h = record {
    place_eq = refl;
    from = omega arith;
    j_le = omega arith;
    i_le = omega (arith, h);
    matched = λ t l. absurd (omega (arith, l));
    refuted = λ q a b o. absurd (omega (arith, a, b));
  }

  search_lem :
      start + length find ≤ length source
      → 1 ≤ length find
      → FindsFirst source find start (
          search source find start
            (build_next (2 * length find) find (length find - 1) 0 0 (0 ∷ [])))
  unfolding search
  search_lem fits large =
      let n = length find in
      let (next, eq, table, size) =
        build_next_lem find plain (2 * n) (n - 1) 0 0 1 (0 ∷ []) (first-State find plain)
          (omega arith) (omega arith) in
      subst (λ r. FindsFirst source find start (search source find start r)) (sym eq)
        (scan_lem (2 * length source + 2) start 1 start next table (omega (arith, size, large))
          (first-Scan fits) (omega (arith, fits)))

  -- For a string without a question mark, the search gives the first place from `start` on at
  -- which the string stands in the source, and -1 exactly when there is none; its loops end.
  pub finding_string-FindsFirst : FindsFirst source find start (finding_string source find start)
  unfolding finding_string
  finding_string-FindsFirst =
      let n = length find in
      let m = length source in
      let found = search source find start (build_next (2 * n) find (n - 1) 0 0 (0 ∷ [])) in
      let inner : Bool → Finding = λ b. if b then found_at start else found in
      let outer : Bool → Finding = λ b. if b then not_found else inner (n == 0) in
      let Good = FindsFirst source find start in
      elim (Bool-cases (ltb m (start + n))) [
        | inl long ↦
            (let over = lt_of m (start + n) long in
              subst Good (sym (ap outer long)) (λ q f o. omega (arith, o.fits, f, over)))
        | inr fits ↦
            (let within = ge_of m (start + n) fits in
              elim (Bool-cases (n == 0)) [
                | inl none_ ↦ subst Good (sym (ap outer fits ∙ ap inner none_)) (
                  record { fits = within; same = λ t l. absurd (ground (arith, l, none_)) },
                  omega arith,
                  λ q a b o. absurd (omega (arith, a, b)),
                )
                | inr some_ ↦
                    subst Good (sym (ap outer fits ∙ ap inner some_))
                      (search_lem within (ground (arith, some_)))
              ])
      ]
