-- ===== src/Service/TypeMap.antt =====
-- `std::map<type_id_t, T>`, in the order of its keys, as far as network/service uses it.
use network_core.Common.{
  ℕ, suc, ◌≤◌, ◌<◌, ◌≡◌, subst, refl, sym, ap, ◌∙◌, Bool, false, Option, none, some, List, [], ◌∷◌,
  ltb, ◌==◌, if◌then◌else◌, arith, Bool-cases, inl, inr,
}

module _ {A : Type 0} where
  unfoldable pub find_type : ℕ → List (ℕ × A) → Option A
  find_type k [] = none
  find_type k ((k', v) ∷ m) = let rest = find_type k m in if k == k' then some v else rest

  -- `emplace`: a key that is there keeps its value
  unfoldable pub emplace : ℕ → A → List (ℕ × A) → List (ℕ × A)
  emplace k v [] = (k, v) ∷ []
  emplace k v ((k', v') ∷ m) =
      let rest = emplace k v m in
      if k == k'
      then (k', v') ∷ m
      else if ltb k k'
      then (k, v) ∷ ((k', v') ∷ m)
      else (k', v') ∷ rest

  -- the value of a key, if it is there, or else another one
  unfoldable pub or_else : Option A → Option A → Option A
  or_else none b = b
  or_else (some a) b = some a

  -- what a key has after an `emplace`
  unfoldable pub emplaced : ℕ → A → ℕ → Option A
  emplaced k v q = if q == k then some v else none

  -- the keys grow from `b` on
  pub data Sorted : ℕ → List (ℕ × A) → Type 0 where
    sorted_end : {b : ℕ} → Sorted b []
    sorted_key :
        {b k : ℕ} {v : A} {m : List (ℕ × A)} → b ≤ k → Sorted (suc k) m → Sorted b ((k, v) ∷ m)

  pub Sorted-weaken : (b c : ℕ) (m : List (ℕ × A)) → c ≤ b → Sorted b m → Sorted c m
  Sorted-weaken b c [] l s = sorted_end
  Sorted-weaken b c ((k, v) ∷ m) l (sorted_key le s) = sorted_key (omega (arith, l, le)) s

  pub find_type-below : (q b : ℕ) (m : List (ℕ × A)) → q < b → Sorted b m → find_type q m ≡ none
  unfolding find_type
  find_type-below q b [] l s = refl
  find_type-below q b ((k, v) ∷ m) l (sorted_key le s) =
      ap (λ (x : Bool). if x then some v else find_type q m) (different q k (omega (arith, l, le)))
      ∙ find_type-below q (suc k) m (omega (arith, l, le)) s
    where
      different : (x y : ℕ) → x < y → (x == y) ≡ false
      different x y h = ground (arith, h)

  -- `emplace` at the first key
  data Placed (k k' : ℕ) (v v' : A) (m : List (ℕ × A)) : Type 0 where
    there : k ≡ k' → emplace k v ((k', v') ∷ m) ≡ ((k', v') ∷ m) → Placed k k' v v' m
    before : k < k' → emplace k v ((k', v') ∷ m) ≡ (k, v) ∷ ((k', v') ∷ m) → Placed k k' v v' m
    behind : k' < k → emplace k v ((k', v') ∷ m) ≡ (k', v') ∷ emplace k v m → Placed k k' v v' m

  placed : (k k' : ℕ) (v v' : A) (m : List (ℕ × A)) → Placed k k' v v' m
  unfolding emplace
  placed k k' v v' m =
      let late : Bool → List (ℕ × A) =
        λ b. if b then (k, v) ∷ ((k', v') ∷ m) else (k', v') ∷ emplace k v m in
      let first : Bool → List (ℕ × A) = λ b. if b then (k', v') ∷ m else late (ltb k k') in
      elim (Bool-cases (k == k')) [
        | inl h ↦ there (ground (arith, h)) (ap first h)
        | inr h ↦ (elim (Bool-cases (ltb k k')) [
          | inl l ↦ before (ground (arith, l)) (ap first h ∙ ap late l)
          | inr l ↦ behind (ground (arith, h, l)) (ap first h ∙ ap late l)
        ])
      ]

  pub Sorted-emplace :
      (b k : ℕ) (v : A) (m : List (ℕ × A)) → b ≤ k → Sorted b m → Sorted b (emplace k v m)
  unfolding emplace
  Sorted-emplace b k v [] l s = sorted_key l sorted_end
  Sorted-emplace b k v ((k', v') ∷ m) l (sorted_key le s) = elim (placed k k' v v' m) [
    | there h e ↦ subst (Sorted b) (sym e) (sorted_key le s)
    | before h e ↦ subst (Sorted b) (sym e) (sorted_key l (sorted_key h s))
    | behind h e ↦ subst (Sorted b) (sym e) (sorted_key le (Sorted-emplace (suc k') k v m h s))
  ]

  at_key :
      (q k k' : ℕ) (v v' : A) (r : Option A)
      → k ≡ k'
      → (if q == k' then some v' else r) ≡ or_else (if q == k' then some v' else r) (emplaced k v q)
  unfolding or_else emplaced
  at_key q k k' v v' r h = ground (arith, h)

  ahead :
      (q k k' : ℕ) (v v' : A) (r : Option A)
      → k < k'
      → (q < suc k' → r ≡ none)
      → (if q == k then some v else if q == k' then some v' else r)
        ≡ or_else (if q == k' then some v' else r) (emplaced k v q)
  unfolding or_else emplaced
  ahead q k k' v v' r h low = ground (arith, h, low)

  beyond :
      (q k k' : ℕ) (v v' : A) (r r' : Option A)
      → k' < k
      → r' ≡ or_else r (emplaced k v q)
      → (if q == k' then some v' else r')
        ≡ or_else (if q == k' then some v' else r) (emplaced k v q)
  unfolding or_else emplaced
  beyond q k k' v v' r r' h e = ground (arith, h, e)

  pub find_type-emplace :
      (q k b : ℕ) (v : A) (m : List (ℕ × A))
      → Sorted b m
      → find_type q (emplace k v m) ≡ or_else (find_type q m) (emplaced k v q)
  unfolding find_type emplace or_else emplaced
  find_type-emplace q k b v [] s = refl
  find_type-emplace q k b v ((k', v') ∷ m) (sorted_key le s) =
      let Goal = λ (r : List (ℕ × A)).
        find_type q r ≡ or_else (find_type q ((k', v') ∷ m)) (emplaced k v q) in
      elim (placed k k' v v' m) [
        | there h e ↦ subst Goal (sym e) (at_key q k k' v v' (find_type q m) h)
        | before h e ↦
            subst Goal (sym e)
              (ahead q k k' v v' (find_type q m) h (λ l. find_type-below q (suc k') m l s))
        | behind h e ↦ subst Goal (sym e) (
            beyond q k k' v v' (find_type q m) (find_type q (emplace k v m)) h
              (find_type-emplace q k (suc k') v m s))
      ]

  -- two keys can be added in either order, unless they are one with two values
  pub emplace_comm :
      (k l : ℕ) (v w : A)
      → (k ≡ l → v ≡ w)
      → (m : List (ℕ × A)) → emplace k v (emplace l w m) ≡ emplace l w (emplace k v m)
  unfolding emplace
  emplace_comm k l v w same [] = ground (arith, same)
  emplace_comm k l v w same ((k', v') ∷ m) = ground (arith, same, emplace_comm k l v w same m)
