-- ===== src/Rpc/Channel/Tests.antt =====
-- The theorems on the RPC channel at concrete inputs, with a header of six fields.
use network_core.Common.{ℕ, ◌≡◌, refl, Bool, true, false, not, ◌&&◌, some, [], ◌∷◌}
use network_core.Net.Errors
use network_core.Net.Connection.{erase_call, find_call}
use network_core.Rpc.Wire.{RpcHeader}
use network_core.Rpc.Context.{Context, app_error, ran_on_ok, has_handler, is_success, wait_throws}
use network_core.Rpc.Context.Outcome.{
  completes, fails, complete, complete_all, complete_all-first, last_error,
}
use network_core.Rpc.Calls.{took, no_call}
use network_core.Rpc.Calls.Lanes.{called, replied, run_lanes, run_waiting, run_lanes-run_waiting}
use network_core.Rpc.Channel.{
  Channel, connected, disconnected, callbacks, read_head, read_reply, stop_rpc_service,
}
use network_core.Rpc.Channel.Sending.Order.{
  Trace, calls, runs_post, write_done, run_moves, Inv, run_moves-Inv,
}
use network_core.Rpc.Channel.Stopping.{Failed, waits, stop_rpc_service-Failed}
use network_core.Rpc.Channel.Receiving.{RepliesTo, recv_body-settles}
use network_core.Rpc.Channel.Receiving.Lost.{callbacks_of, handle_recv_reply-lost}
use network_core.Rpc.Channel.Recv.{recv_body, handle_recv_reply}

record SmallHeader : Type 0 where
  flag : Bool
  two_way : Bool
  code : ℕ
  number : ℕ
  size : ℕ
  protocol : ℕ

abbrev small : RpcHeader SmallHeader
small = record {
  is_reply = λ h. h.flag;
  need_reply = λ h. not h.flag && h.two_way;
  reply = λ b h. record h { flag = b };
  result = λ h. h.code;
  set_result = λ r h. record h { code = r };
  call_id = λ h. h.number;
  set_call_id = λ n h. record h { number = n };
  length_of = λ h. h.size;
  set_length = λ n h. record h { size = n };
  proto = λ h. h.protocol;
  ntoh = λ h. h;
  hton = λ h. h;
}

-- call 7 of protocol 5, and its reply of `n` bytes
abbrev ask : SmallHeader
ask = record { flag = false; two_way = true; code = 0; number = 7; size = 0; protocol = 5 }

abbrev told : ℕ → SmallHeader
told n = record { flag = true; two_way = true; code = 0; number = 7; size = n; protocol = 5 }

abbrev asked : Context SmallHeader
asked = record {
  head = ask;
  send_msg = [];
  recv_msg = [];
  err = app_error Errors.ok;
  has_on_ok = true;
  has_on_error = false;
  has_barrier = false;
  has_post_func = false;
  has_timer = false;
  is_over = false;
  duration = 0;
  reply_protocol_id = 0;
}

-- a client on which call 1 waits for the reply to 7, and call 2 is to be sent
abbrev client : ℕ → Channel SmallHeader
client n = record {
  status = connected;
  is_open = true;
  calls = record { call_map = (7, 1) ∷ []; call_list = 3 ∷ []; cur_id = 7 };
  to_calls = 2 ∷ [];
  ctxs = λ id. asked;
  head = told n;
  is_client = true;
  has_irouter = false;
  has_after_send = false;
}

complete_all-first_example :
    let (left, told_by) =
      complete_all (completes ∷ (fails (app_error Errors.timeout) ∷ [])) asked in
    (told_by ≡ ran_on_ok [] ∷ [])
    × (left.err ≡ app_error Errors.timeout)
    × (wait_throws left ≡ some (app_error Errors.timeout))
unfolding complete complete_all last_error is_success
complete_all-first_example =
    complete_all-first completes (fails (app_error Errors.timeout) ∷ []) asked

run_lanes-run_waiting_example :
    run_lanes (called 5 1 ∷ (called 5 2 ∷ (replied 5 ∷ (replied 6 ∷ [])))) []
    ≡ took 1 ∷ (no_call ∷ [])
unfolding run_waiting
run_lanes-run_waiting_example =
    run_lanes-run_waiting (called 5 1 ∷ (called 5 2 ∷ (replied 5 ∷ (replied 6 ∷ []))))

stop_rpc_service-Failed_example :
    let s' = (stop_rpc_service (app_error Errors.be_disconnected) false (client 0)).0 in
    Failed (app_error Errors.be_disconnected) (s'.ctxs 1)
    × (s'.status ≡ disconnected)
    × (s'.calls.call_map ≡ [])
    × (s'.to_calls ≡ [])
    × (s'.calls.call_list ≡ 3 ∷ [])
unfolding waits
stop_rpc_service-Failed_example =
    stop_rpc_service-Failed (app_error Errors.be_disconnected) false (client 0) 1 refl

abbrev fresh : Trace SmallHeader
fresh = record {
  state = record (client 0) {
    calls = record { call_map = []; call_list = []; cur_id = 0 };
    to_calls = [];
  };
  accepted = [];
  written = [];
  in_flight = 0;
  posted = 0;
}

fresh-Inv : Inv fresh
fresh-Inv = record {
  status_eq = refl;
  open_eq = refl;
  order_eq = refl;
  flight_eq = refl;
  progress = λ h. refl;
}

run_moves-Inv_example :
    Inv (run_moves small (calls 4 ∷ (calls 5 ∷ (runs_post ∷ (write_done ∷ [])))) fresh)
run_moves-Inv_example =
    run_moves-Inv small (calls 4 ∷ (calls 5 ∷ (runs_post ∷ (write_done ∷ [])))) fresh fresh-Inv

client-RepliesTo : (n : ℕ) → RepliesTo small 1 (client n)
unfolding has_handler find_call
client-RepliesTo n = record { is_reply_eq = refl; found_eq = refl; handler_eq = refl }

recv_body-settles_example :
    (((recv_body small (client 0)).0.ctxs 1).is_over ≡ true)
    × ((recv_body small (client 0)).0.calls.call_map ≡ [])
    × ((recv_body small (client 0)).1 ≡ read_head ∷ callbacks 1 (ran_on_ok [] ∷ []))
unfolding erase_call
recv_body-settles_example = recv_body-settles small 1 (client 0) (client-RepliesTo 0) refl refl refl

handle_recv_reply-lost_example :
    let (s', effects) = handle_recv_reply small 104 1 [] (recv_body small (client 8)).0 in
    ((recv_body small (client 8)).1 ≡ read_reply 1 8 ∷ [])
    × ((s'.ctxs 1).is_over ≡ false)
    × (callbacks_of 1 effects ≡ [])
unfolding waits erase_call
handle_recv_reply-lost_example =
    handle_recv_reply-lost small 1 104 [] (client 8) (client-RepliesTo 8) refl refl refl refl refl
      refl
