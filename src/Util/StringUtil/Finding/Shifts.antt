-- ===== src/Util/StringUtil/Finding/Shifts.antt =====
-- The table `next` of finding_string: its entry for `j` is `j` less the least shift under which the
-- first `j` characters agree with themselves.
use network_core.Common.{
  ℕ, zero, suc, ◌+◌, ◌-◌, ◌*◌, ◌<◌, ◌≤◌, ◌≡◌, refl, sym, ap, subst, ◌∙◌, Bool, true, false, ◌⊎◌,
  Option, none, some, List, [], ◌∷◌, ◌++◌, ltb, ◌==◌, if◌then◌else◌, length, length-append, arith,
  Bool-cases, inl, inr, ==_iff,
}
use network_core.Util.StringUtil.{char_at, question}
use network_core.Util.StringUtil.Finding.{advances, build_next}

pub char_at-append : (xs ys : List ℕ) (i : ℕ) → i < length xs → char_at (xs ++ ys) i ≡ char_at xs i
unfolding char_at
char_at-append [] ys i h = absurd (omega (arith, h))
char_at-append (x ∷ xs) ys zero h = refl
char_at-append (x ∷ xs) ys (suc i) h = char_at-append xs ys i (omega (arith, h))

pub char_at-last : (xs : List ℕ) (y : ℕ) → char_at (xs ++ (y ∷ [])) (length xs) ≡ y
unfolding char_at
char_at-last [] y = refl
char_at-last (x ∷ xs) y = char_at-last xs y

pub lt_of : (a b : ℕ) → ltb a b ≡ true → a < b
lt_of a b h = ground (arith, h)

pub ge_of : (a b : ℕ) → ltb a b ≡ false → b ≤ a
ge_of a b h = ground (arith, h)

pub lt_or_eq : (a b : ℕ) → a < suc b → (a < b) ⊎ (a ≡ b)
lt_or_eq a b h = elim (Bool-cases (ltb a b)) [
  | inl l ↦ inl (ground (arith, l))
  | inr n ↦ inr (ground (arith, n, h))
]

pub order : (a b : ℕ) → (a < b) ⊎ ((a ≡ b) ⊎ (b < a))
order a b = elim (Bool-cases (ltb a b)) [
  | inl l ↦ inl (ground (arith, l))
  | inr n ↦ elim (Bool-cases (ltb b a)) [
    | inl l ↦ inr (inr (ground (arith, l)))
    | inr m ↦ inr (inl (ground (arith, n, m)))
  ]
]

module _ (F : ℕ → ℕ) where
  -- the first `j` characters agree with themselves `d` places on
  abbrev pub Agrees : (d j : ℕ) → Type 0
  Agrees d j = (t : ℕ) → t + d < j → F (t + d) ≡ F t

  -- `d` is the least such shift
  pub record Least (d j : ℕ) : Type 0 where
    pub positive : 1 ≤ d
    pub agrees : Agrees d j
    pub least : (e : ℕ) → 1 ≤ e → e < d → Agrees e j → ⊥

  -- two shifts, one after the other
  Agrees-add : (d e j k : ℕ) → k + d ≡ j → Agrees d j → Agrees e k → Agrees (d + e) j
  Agrees-add d e j k s a b t h =
      ap F (omega arith) ∙ a (t + e) (omega (arith, s, h)) ∙ b t (omega (arith, s, h))

  -- a larger shift that agrees leaves one on the shorter prefix
  Agrees-sub : (d e j k : ℕ) → k + d ≡ j → Agrees d j → Agrees (d + e) (suc j) → Agrees e k
  Agrees-sub d e j k s a b t h =
      sym (a (t + e) (omega (arith, s, h))) ∙ ap F (omega arith) ∙ b t (omega (arith, s, h))

  Agrees-suc : (d j k : ℕ) → k + d ≡ j → F j ≡ F k → Agrees d j → Agrees d (suc j)
  Agrees-suc d j k s e a t h = elim (lt_or_eq (t + d) j h) [
    | inl l ↦ a t l
    | inr q ↦ ap F q ∙ (e ∙ ap F (omega (arith, s, q)))
  ]

  Agrees-pred : (d j : ℕ) → Agrees d (suc j) → Agrees d j
  Agrees-pred d j a t h = a t (omega (arith, h))

-- a string in which no character is a question mark
abbrev pub Plain : List ℕ → Type 0
Plain find = (i : ℕ) → (char_at find i == question) ≡ false

module _ (find : List ℕ) (plain : Plain find) where
  pub advances-true :
      (k c : ℕ) → advances find k c ≡ true → (k ≡ 0) ⊎ ((1 ≤ k) × (c ≡ char_at find (k - 1)))
  unfolding advances
  advances-true zero c h = inl refl
  advances-true (suc k) c h =
      inr (
        omega arith,
        (==_iff c (char_at find (suc k - 1))).0 (ground (arith, h, plain (suc k - 1))),
      )

  pub advances-false :
      (k c : ℕ) → advances find k c ≡ false → (1 ≤ k) × (c ≡ char_at find (k - 1) → ⊥)
  unfolding advances
  advances-false zero c h = absurd (ground (arith, h))
  advances-false (suc k) c h = (omega arith, λ e. ground (arith, h, e))

  -- the entries of the table
  abbrev pub Table : List ℕ → Type 0
  Table next =
      (i : ℕ) → i < length next → (d : ℕ) × (char_at next i + d ≡ i + 1) × Least (char_at find) d i

  Table-append :
      (next : List ℕ) (k d : ℕ)
      → Table next
      → k + d ≡ length next + 1
      → Least (char_at find) d (length next)
      → Table (next ++ (k ∷ []))
  Table-append next k d table s l i h =
      elim (lt_or_eq i (length next) (omega (arith, h, length-append next (k ∷ [])))) [
        | inl b ↦
            (let (e, eq, m) = table i b in
              (e, ap (λ v. v + e) (char_at-append next (k ∷ []) i b) ∙ eq, m))
        | inr q ↦ (
          d,
          ap (λ v. char_at (next ++ (k ∷ [])) v + d) q
              ∙ ap (λ v. v + d) (char_at-last next k)
              ∙ s
              ∙ ap (λ v. v + 1) (sym q),
          subst (Least (char_at find) d) (sym q) l,
        )
      ]

  -- what the loop knows at `j`: no shift below `d` reaches behind `j`
  pub record State (j k d : ℕ) (next : List ℕ) : Type 0 where
    pub length_eq : length next ≡ j + 1
    pub table : Table next
    pub shift_eq : k + d ≡ j + 1
    pub positive : 1 ≤ d
    pub agrees : Agrees (char_at find) d j
    pub none_below : (e : ℕ) → 1 ≤ e → e < d → Agrees (char_at find) e (suc j) → ⊥

  forward-State :
      (j k d : ℕ) (next : List ℕ)
      → State j k d next
      → advances find k (char_at find j) ≡ true
      → State (j + 1) (k + 1) d (next ++ ((k + 1) ∷ []))
  forward-State j k d next s h =
      let F = char_at find in
      let longer : Agrees F d (suc j) = elim (advances-true k (F j) h) [
        | inl z ↦ (λ t b. absurd (omega (arith, b, z, s.shift_eq)))
        | inr p ↦ Agrees-suc F d j (k - 1) (omega (arith, p.0, s.shift_eq)) p.1 s.agrees
      ] in
      record {
        length_eq = omega (arith, length-append next ((k + 1) ∷ []), s.length_eq);
        table = Table-append next (k + 1) d s.table (omega (arith, s.shift_eq, s.length_eq)) (
            subst (Least F d) (omega (arith, s.length_eq))
              (record { positive = s.positive; agrees = longer; least = s.none_below }));
        shift_eq = omega (arith, s.shift_eq);
        positive = s.positive;
        agrees = subst (Agrees F d) (omega arith) longer;
        none_below = λ e p b a.
            s.none_below e p b
              (Agrees-pred F e (suc j) (subst (λ n. Agrees F e n) (omega arith) a));
      }

  -- the shift that the table adds, and why none is passed over
  pub back-Agrees :
      (d e j k : ℕ)
      → k + d ≡ j
      → Agrees (char_at find) d j
      → Least (char_at find) e k
      → (char_at find j ≡ char_at find k → ⊥)
      → ((c : ℕ) → 1 ≤ c → c < d → Agrees (char_at find) c (suc j) → ⊥)
      → (c : ℕ) → 1 ≤ c
      → c < d + e
      → Agrees (char_at find) c (suc j)
      → ⊥
  back-Agrees d e j k s a l differs below c p b m =
      let F = char_at find in
      elim (order c d) [
        | inl lt ↦ below c p lt m
        | inr (inl eq) ↦
            differs
              (ap F (omega (arith, s)) ∙ subst (λ x. Agrees F x (suc j)) eq m k (omega (arith, s)))
        | inr (inr gt) ↦
            l.least (c - d) (omega (arith, gt)) (omega (arith, b, gt)) (
              Agrees-sub F d (c - d) j k s a
                (subst (λ x. Agrees F x (suc j)) (omega (arith, gt)) m))
      ]

  back-State :
      (j k d : ℕ) (next : List ℕ)
      → State j k d next
      → advances find k (char_at find j) ≡ false
      → (e : ℕ) × (char_at next (k - 1) < k) × State j (char_at next (k - 1)) (d + e) next
  back-State j k d next s h =
      let F = char_at find in
      let (large, differs) = advances-false k (F j) h in
      let (e, eq, l) =
        s.table (k - 1) (omega (arith, large, s.shift_eq, s.positive, s.length_eq)) in
      let place : k - 1 + d ≡ j = omega (arith, large, s.shift_eq) in
      (
        e,
        omega (arith, eq, l.positive, large),
        record {
          length_eq = s.length_eq;
          table = s.table;
          shift_eq = omega (arith, eq, s.shift_eq, large);
          positive = omega (arith, s.positive);
          agrees = Agrees-add F d e j (k - 1) place s.agrees l.agrees;
          none_below = back-Agrees d e j (k - 1) place s.agrees l differs s.none_below;
        },
      )

  -- The loop ends, and its table gives the least shift of every prefix.
  pub build_next_lem :
      (fuel last j k d : ℕ) (next : List ℕ)
      → State j k d next
      → j ≤ last
      → 2 * (last - j) + k ≤ fuel
      → (result : List ℕ) × (build_next fuel find last j k next ≡ some result)
        × Table result
        × (length result ≡ last + 1)
  unfolding build_next
  build_next_lem zero last j k d next s b f =
      let done : ltb j last ≡ false = ground (arith, f, b) in
      (
        next,
        ap (λ c. if c then none else some next) done,
        s.table,
        omega (arith, f, b, s.length_eq),
      )
  build_next_lem (suc fuel) last j k d next s b f =
      let F = char_at find in
      let forward = build_next fuel find last (j + 1) (k + 1) (next ++ ((k + 1) ∷ [])) in
      let back = build_next fuel find last j (char_at next (k - 1)) next in
      let choose : Bool → Option (List ℕ) = λ c. if c then forward else back in
      let enter : Bool → Option (List ℕ) =
        λ c. if c then choose (advances find k (F j)) else some next in
      elim (Bool-cases (ltb j last)) [
        | inr done ↦
            (next, ap enter done, s.table, omega (arith, ge_of j last done, b, s.length_eq))
        | inl more ↦
            (let low = lt_of j last more in
              elim (Bool-cases (advances find k (F j))) [
                | inl yes_ ↦
                    (let (result, eq, made, size) =
                        build_next_lem fuel last (j + 1) (k + 1) d (next ++ ((k + 1) ∷ []))
                          (forward-State j k d next s yes_) (omega (arith, low))
                          (omega (arith, low, f)) in
                      (result, ap enter more ∙ ap choose yes_ ∙ eq, made, size))
                | inr no_ ↦
                    (let (e, less, s') = back-State j k d next s no_ in
                      let (result, eq, made, size) =
                        build_next_lem fuel last j (char_at next (k - 1)) (d + e) next s' b
                          (omega (arith, less, f)) in
                      (result, ap enter more ∙ ap choose no_ ∙ eq, made, size))
              ])
      ]

  first-Table : Table (0 ∷ [])
  unfolding char_at
  first-Table zero h = (
    1,
    refl,
    record {
      positive = omega arith;
      agrees = λ t h. absurd (omega (arith, h));
      least = λ e p b a. absurd (omega (arith, p, b));
    },
  )
  first-Table (suc i) h = absurd (omega (arith, h))

  pub first-State : State 0 0 1 (0 ∷ [])
  first-State = record {
    length_eq = refl;
    table = first-Table;
    shift_eq = refl;
    positive = omega arith;
    agrees = λ t h. absurd (omega (arith, h));
    none_below = λ e p b a. absurd (omega (arith, p, b));
  }
