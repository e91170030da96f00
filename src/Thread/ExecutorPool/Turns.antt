-- ===== src/Thread/ExecutorPool/Turns.antt =====
-- The turns of executor_pool.hpp: which executor a call gives, and that it is always one of them.
use native.Mathlib.Nat.{mod-add-mod, mod-lt, mod-eq_of_lt}
use network_core.Common.{
  ℕ, pos, zero, suc, ◌+◌, ◌%◌, ◌<◌, ◌≡◌, refl, sym, ap, subst, ◌∙◌, some, List, [], ◌∷◌, length,
  get_elem?, arith,
}
use network_core.Thread.ExecutorPool.{ExecutorPool, get_executor, get_executor_by, next_of, nth_of}

-- the pool after `k` calls of get_executor
unfoldable pub after : ℕ → ExecutorPool → ExecutorPool
unfolding get_executor
after zero p = p
after (suc k) p = after k (get_executor p).1

get_elem?-some : (xs : List ℕ) (i : ℕ) → i < length xs → (x : ℕ) × (get_elem? xs i ≡ some x)
get_elem?-some [] i h = absurd (omega (arith, h))
get_elem?-some (x ∷ xs) zero h = (x, refl)
get_elem?-some (x ∷ xs) (suc i) h = get_elem?-some xs i (omega (arith, h))

next_of-cur :
    (xs : List ℕ) (p : ExecutorPool)
    → p.cur_executor_index < length xs
    → ((next_of xs p).1.cur_executor_index ≡ (p.cur_executor_index + 1) % length xs)
      × ((next_of xs p).1.executors ≡ p.executors)
      × ((next_of xs p).0 ≡ nth_of xs p.cur_executor_index)
unfolding next_of nth_of
next_of-cur [] p h = absurd (omega (arith, h))
next_of-cur (x ∷ xs) p h = (refl, refl, ap (get_elem? (x ∷ xs)) (sym (mod-eq_of_lt h)))

after-cur :
    (k : ℕ) (p : ExecutorPool)
    → p.cur_executor_index < length p.executors
    → ((after k p).cur_executor_index ≡ (p.cur_executor_index + k) % length p.executors)
      × ((after k p).executors ≡ p.executors)
unfolding after get_executor
after-cur zero p h = (sym (ap (λ i. i % length p.executors) (omega arith) ∙ mod-eq_of_lt h), refl)
after-cur (suc k) p h =
    let n = length p.executors in
    let (cur, same, _) = next_of-cur p.executors p h in
    let q = (get_executor p).1 in
    let below : q.cur_executor_index < length q.executors =
      subst (λ i. i < length q.executors) (sym cur)
        (subst (λ l. (p.cur_executor_index + 1) % n < length l) (sym same)
          (mod-lt (p.cur_executor_index + 1) (omega (arith, h)))) in
    let (last, kept) = after-cur k q below in
    (
      last
          ∙ ap (λ l. (q.cur_executor_index + k) % length l) same
          ∙ ap (λ i. (i + k) % n) cur
          ∙ mod-add-mod (p.cur_executor_index + 1) n k
          ∙ ap (λ i. i % n) (omega arith),
      kept ∙ same,
    )

nth_of-mod : (xs : List ℕ) (i : ℕ) → 0 < length xs → nth_of xs (i % length xs) ≡ nth_of xs i
unfolding nth_of
nth_of-mod [] i h = refl
nth_of-mod (x ∷ xs) i h = ap (get_elem? (x ∷ xs)) (mod-eq_of_lt (mod-lt i h))

nth_of-some : (xs : List ℕ) (i : ℕ) → 0 < length xs → (x : ℕ) × (nth_of xs i ≡ some x)
unfolding nth_of
nth_of-some [] i h = absurd (omega (arith, h))
nth_of-some (x ∷ xs) i h = get_elem?-some (x ∷ xs) (i % length (x ∷ xs)) (mod-lt i h)

-- A pool whose index is below its size keeps it there; and the call of get_executor after `k`
-- others gives an executor, the one that get_executor(id) gives for the index plus `k`.
pub get_executor-get_executor_by :
    (k : ℕ) (p : ExecutorPool)
    → p.cur_executor_index < length p.executors
    → ((after k p).cur_executor_index < length p.executors)
      × ((get_executor (after k p)).0 ≡ get_executor_by (pos (p.cur_executor_index + k)) p)
      × ((e : ℕ) × ((get_executor (after k p)).0 ≡ some e))
unfolding get_executor get_executor_by
get_executor-get_executor_by k p h =
    let n = length p.executors in
    let i = p.cur_executor_index + k in
    let some_there : 0 < n = omega (arith, h) in
    let (cur, same) = after-cur k p h in
    let below : (after k p).cur_executor_index < n =
      subst (λ j. j < n) (sym cur) (mod-lt i some_there) in
    let (_, _, given) =
      next_of-cur (after k p).executors (after k p)
        (subst (λ l. (after k p).cur_executor_index < length l) (sym same) below) in
    let eq : (get_executor (after k p)).0 ≡ nth_of p.executors i =
      given
      ∙ ap (λ l. nth_of l (after k p).cur_executor_index) same
      ∙ ap (nth_of p.executors) cur
      ∙ nth_of-mod p.executors i some_there in
    let (e, found) = nth_of-some p.executors i some_there in (below, eq, (e, eq ∙ found))
