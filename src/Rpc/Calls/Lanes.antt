-- ===== src/Rpc/Calls/Lanes.antt =====
-- The clients' container of async_rpc_context.hpp answers calls of one protocol in the order in
-- which they were made: it is a list of the waiting calls, of which a reply takes the first of its
-- protocol.
use mathlib.Core.Path.{ap₂}
use network_core.Common.{
  ℕ, not, ◌&&◌, ◌≡◌, refl, sym, ap, ◌∙◌, Bool, true, false, List, [], ◌∷◌, ◌++◌, ◌==◌,
  if◌then◌else◌, arith,
}
use network_core.Rpc.Calls.{Lanes, Taken, no_call, took, push_lane, pop_queue, get_lane}

-- what happens to the container: a call is made, or a reply arrives
pub data Event : Type 0 where
  called : (protocol id : ℕ) → Event
  replied : (protocol : ℕ) → Event

unfoldable pub run_lanes : List Event → Lanes → List Taken
unfolding push_lane get_lane
run_lanes [] m = []
run_lanes (called protocol id ∷ es) m = run_lanes es (push_lane protocol id m)
run_lanes (replied protocol ∷ es) m = (get_lane protocol m).0 ∷ run_lanes es (get_lane protocol m).1

-- the description: the first waiting call with the protocol
unfoldable pub take_first : ℕ → List (ℕ × ℕ) → Taken × List (ℕ × ℕ)
take_first protocol [] = (no_call, [])
take_first protocol ((k, id) ∷ waiting) =
    let rest = take_first protocol waiting in
    if k == protocol then (took id, waiting) else (rest.0, (k, id) ∷ rest.1)

unfoldable pub run_waiting : List Event → List (ℕ × ℕ) → List Taken
unfolding take_first
run_waiting [] w = []
run_waiting (called protocol id ∷ es) w = run_waiting es (w ++ ((protocol, id) ∷ []))
run_waiting (replied protocol ∷ es) w =
    (take_first protocol w).0 ∷ run_waiting es (take_first protocol w).1

-- the waiting calls of one protocol
lane : ℕ → List (ℕ × ℕ) → List ℕ
lane p [] = []
lane p ((k, id) ∷ w) = if k == p then id ∷ lane p w else lane p w

queue_of : ℕ → Lanes → List ℕ
queue_of p [] = []
queue_of p ((k, queue) ∷ m) = if k == p then queue else queue_of p m

-- no queue is empty, and no protocol has two
has_key : ℕ → Lanes → Bool
has_key p [] = false
has_key p ((k, queue) ∷ m) = if k == p then true else has_key p m

good : Lanes → Bool
good [] = true
good ((k, []) ∷ m) = false
good ((k, id ∷ queue) ∷ m) = not (has_key k m) && good m

first_of : List ℕ → Taken
first_of [] = no_call
first_of (id ∷ q) = took id

rest_of : List ℕ → List ℕ
rest_of [] = []
rest_of (id ∷ q) = q

take_first-lane : (p : ℕ) (w : List (ℕ × ℕ)) → (take_first p w).0 ≡ first_of (lane p w)
unfolding take_first lane first_of
take_first-lane p [] = refl
take_first-lane p ((k, id) ∷ w) = ground (arith, take_first-lane p w)

lane-take_first :
    (p q : ℕ) (w : List (ℕ × ℕ))
    → lane q (take_first p w).1 ≡ (if p == q then rest_of (lane q w) else lane q w)
unfolding take_first lane rest_of
lane-take_first p q [] = ground arith
lane-take_first p q ((k, id) ∷ w) = ground (arith, lane-take_first p q w)

lane-append :
    (q p id : ℕ) (w : List (ℕ × ℕ))
    → lane q (w ++ ((p, id) ∷ [])) ≡ (if p == q then lane q w ++ (id ∷ []) else lane q w)
unfolding lane
lane-append q p id [] = ground arith
lane-append q p id ((k, x) ∷ w) = ground (arith, lane-append q p id w)

queue_of-push_lane :
    (q p id : ℕ) (m : Lanes)
    → queue_of q (push_lane p id m) ≡ (if p == q then queue_of q m ++ (id ∷ []) else queue_of q m)
unfolding queue_of push_lane
queue_of-push_lane q p id [] = ground arith
queue_of-push_lane q p id ((k, x) ∷ m) = ground (arith, queue_of-push_lane q p id m)

has_key-push_lane :
    (q p id : ℕ) (m : Lanes) → has_key q (push_lane p id m) ≡ (if p == q then true else has_key q m)
unfolding has_key push_lane
has_key-push_lane q p id [] = ground arith
has_key-push_lane q p id ((k, x) ∷ m) = ground (arith, has_key-push_lane q p id m)

push_lane-good : (p id : ℕ) (m : Lanes) → good m ≡ true → good (push_lane p id m) ≡ true
unfolding push_lane good has_key
push_lane-good p id [] g = refl
push_lane-good p id ((k, []) ∷ m) g = absurd (ground arith)
push_lane-good p id ((k, x ∷ queue) ∷ m) g =
    ground (arith, push_lane-good p id m, has_key-push_lane k p id m)

get_lane-first : (p : ℕ) (m : Lanes) → good m ≡ true → (get_lane p m).0 ≡ first_of (queue_of p m)
unfolding get_lane pop_queue good queue_of first_of
get_lane-first p [] g = refl
get_lane-first p ((k, []) ∷ m) g = absurd (ground arith)
get_lane-first p ((k, x ∷ []) ∷ m) g = ground (arith, get_lane-first p m)
get_lane-first p ((k, x ∷ (y ∷ queue)) ∷ m) g = ground (arith, get_lane-first p m)

queue_of-absent : (p : ℕ) (m : Lanes) → has_key p m ≡ false → queue_of p m ≡ []
unfolding queue_of has_key
queue_of-absent p [] h = refl
queue_of-absent p ((k, queue) ∷ m) h = ground (arith, queue_of-absent p m)

queue_of-get_lane :
    (q p : ℕ) (m : Lanes)
    → good m ≡ true
    → queue_of q (get_lane p m).1 ≡ (if p == q then rest_of (queue_of q m) else queue_of q m)
unfolding get_lane pop_queue good queue_of rest_of
queue_of-get_lane q p [] g = ground arith
queue_of-get_lane q p ((k, []) ∷ m) g = absurd (ground arith)
queue_of-get_lane q p ((k, x ∷ []) ∷ m) g =
    ground (arith, queue_of-get_lane q p m, queue_of-absent k m)
queue_of-get_lane q p ((k, x ∷ (y ∷ queue)) ∷ m) g = ground (arith, queue_of-get_lane q p m)

has_key-get_lane : (q p : ℕ) (m : Lanes) → has_key q m ≡ false → has_key q (get_lane p m).1 ≡ false
unfolding get_lane pop_queue has_key
has_key-get_lane q p [] h = refl
has_key-get_lane q p ((k, []) ∷ m) h = ground (arith, has_key-get_lane q p m)
has_key-get_lane q p ((k, x ∷ []) ∷ m) h = ground (arith, has_key-get_lane q p m)
has_key-get_lane q p ((k, x ∷ (y ∷ queue)) ∷ m) h = ground (arith, has_key-get_lane q p m)

get_lane-good : (p : ℕ) (m : Lanes) → good m ≡ true → good (get_lane p m).1 ≡ true
unfolding get_lane pop_queue good
get_lane-good p [] g = refl
get_lane-good p ((k, []) ∷ m) g = absurd (ground arith)
get_lane-good p ((k, x ∷ []) ∷ m) g = ground (arith, get_lane-good p m, has_key-get_lane k p m)
get_lane-good p ((k, x ∷ (y ∷ queue)) ∷ m) g =
    ground (arith, get_lane-good p m, has_key-get_lane k p m)

-- the container and the list of waiting calls agree on every protocol
record Agree (m : Lanes) (w : List (ℕ × ℕ)) : Type 0 where
  in_order : good m ≡ true
  lanes_eq : (q : ℕ) → queue_of q m ≡ lane q w

run_lanes-Agree :
    (es : List Event) (m : Lanes) (w : List (ℕ × ℕ)) → Agree m w → run_lanes es m ≡ run_waiting es w
unfolding run_lanes run_waiting
run_lanes-Agree [] m w a = refl
run_lanes-Agree (called p id ∷ es) m w a =
    run_lanes-Agree es (push_lane p id m) (w ++ ((p, id) ∷ [])) (record {
      in_order = push_lane-good p id m a.in_order;
      lanes_eq = λ q.
          queue_of-push_lane q p id m
          ∙ ap (λ l. if p == q then l ++ (id ∷ []) else l) (a.lanes_eq q)
          ∙ sym (lane-append q p id w);
    })
run_lanes-Agree (replied p ∷ es) m w a =
    ap₂ ◌∷◌ (get_lane-first p m a.in_order ∙ ap first_of (a.lanes_eq p) ∙ sym (take_first-lane p w))
      (run_lanes-Agree es (get_lane p m).1 (take_first p w).1 (record {
        in_order = get_lane-good p m a.in_order;
        lanes_eq = λ q.
            queue_of-get_lane q p m a.in_order
            ∙ ap (λ l. if p == q then rest_of l else l) (a.lanes_eq q)
            ∙ sym (lane-take_first p q w);
      }))

-- Whatever calls are made and whatever replies arrive, every reply takes the first waiting call of
-- its protocol, or none when there is none; the front of an empty queue is never taken.
pub run_lanes-run_waiting : (es : List Event) → run_lanes es [] ≡ run_waiting es []
unfolding good lane queue_of
run_lanes-run_waiting es =
    run_lanes-Agree es [] [] (record { in_order = refl; lanes_eq = λ q. refl })
