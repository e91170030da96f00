-- ===== src/Net/IosPool.antt =====
-- `ios_pool` of network/net/ios_pool.hpp: io_services, which are known by numbers, that are handed
-- out in turns, and the main one, which stands in when there are none.
use network_core.Common.{
  ℕ, ℤ, pos, negsuc, zero, suc, ◌+◌, ◌%◌, ◌≡◌, ap, ◌∙◌, Option, some, List, [], ◌∷◌, ◌++◌, length,
  get_elem?, sym,
}
use network_core.Thread.ExecutorPool.{ExecutorPool, get_executor, next_of}

pub record IosPool : Type 0 where
  pub main_ios : ℕ
  pub ios_ptrs : List ℕ
  -- one io_service::work each, the main one's included
  pub works : List ℕ
  pub cur_ios_index : ℕ

pub data IosEffect : Type 0 where
  run_in_thread : ℕ → IosEffect
  run_main : ℕ → IosEffect
  stop_ios : ℕ → IosEffect

unfoldable pub services_from : ℕ → ℕ → List ℕ
services_from zero k = []
services_from (suc n) k = k ∷ services_from n (k + 1)

-- init_io_services, with the numbers of the io_services that are made
unfoldable pub new_ios_pool : ℕ → ℕ → ℕ → IosPool
unfolding services_from
new_ios_pool main_ios count next = record {
  main_ios = main_ios;
  ios_ptrs = services_from count next;
  works = main_ios ∷ services_from count next;
  cur_ios_index = 0;
}

unfoldable pub run_all : List ℕ → List IosEffect
run_all [] = []
run_all (i ∷ is) = run_in_thread i ∷ run_all is

unfoldable pub start_pool : IosPool → List IosEffect
unfolding run_all
start_pool s = run_all s.ios_ptrs ++ (run_main s.main_ios ∷ [])

unfoldable pub stop_each : List ℕ → List IosEffect
stop_each [] = []
stop_each (i ∷ is) = stop_ios i ∷ stop_each is

unfoldable pub stop_pool : IosPool → List IosEffect
unfolding stop_each
stop_pool s = stop_each s.ios_ptrs ++ (stop_ios s.main_ios ∷ [])

-- the io_service of the index and the next index; none is an index out of range
unfoldable pub next_ios : List ℕ → IosPool → Option ℕ × IosPool
next_ios [] s = (some s.main_ios, s)
next_ios (i ∷ is) s = (
  get_elem? (i ∷ is) s.cur_ios_index,
  record s { cur_ios_index = (s.cur_ios_index + 1) % length (i ∷ is) },
)

unfoldable pub get_io_service : IosPool → Option ℕ × IosPool
unfolding next_ios
get_io_service s = next_ios s.ios_ptrs s

-- the io_service for an id that is not negative
unfoldable pub nth_ios : ℕ → List ℕ → ℕ → Option ℕ
nth_ios main_ios [] id = some main_ios
nth_ios main_ios (i ∷ is) id = get_elem? (i ∷ is) (id % length (i ∷ is))

-- `get_io_service(id)`: a negative id gives the main one
unfoldable pub get_io_service_by : ℤ → IosPool → Option ℕ
unfolding nth_ios
get_io_service_by (pos id) s = nth_ios s.main_ios s.ios_ptrs id
get_io_service_by (negsuc n) s = some s.main_ios

-- the pool of executors with the same members and the same index
abbrev as_executors : IosPool → ExecutorPool
as_executors s = record {
  executors = s.ios_ptrs;
  threads = [];
  cur_executor_index = s.cur_ios_index;
}

-- With io_services, the turns are those of the pool of executors.
next_ios-next_of :
    (i : ℕ) (is : List ℕ) (s : IosPool)
    → s.ios_ptrs ≡ i ∷ is
    → ((get_io_service s).0 ≡ (get_executor (as_executors s)).0)
      × (as_executors (get_io_service s).1 ≡ (get_executor (as_executors s)).1)
unfolding get_io_service next_ios get_executor next_of
next_ios-next_of i is s e = (
  ap (λ l. (next_ios l s).0) e ∙ sym (ap (λ l. (next_of l (as_executors s)).0) e),
  ap (λ l. as_executors (next_ios l s).1) e ∙ sym (ap (λ l. (next_of l (as_executors s)).1) e),
)
