-- ===== src/Net/Connection/Tests.antt =====
-- The connection at concrete states: two messages in a batch, a call and its reply, and a timer
-- that has nothing to do.
use network_core.Common.{
  ◌+◌, ◌≤◌, ◌≡◌, refl, true, false, none, List, [], ◌∷◌, map, arith, length, replicate,
}
use network_core.Net.Batch
use network_core.Net.Connection.{
  Connection, CallIds, hton, total_length, do_write, async_write_msg, write_queue, write_as_batch,
  handle_write, handle_write_batch, handle_timer, find_call, resume,
}
use network_core.Net.Connection.Calls.{resumed, waiting, dispatch_all-waiting, do_await_write-reply}
use network_core.Net.Connection.Draining.{drains}
use network_core.Net.Connection.Lifecycle.{assign_call_id, do_await_write, dispatch_all, start}
use network_core.Net.Connection.Timeout.{here, next, started, handle_timer_idle}
use network_core.Net.Connection.Writing.{
  WriteEvent, enqueue, complete, Socket, idle, accepted, run, step, completes, pending, Inv,
  run-Inv,
}
use network_core.Net.Header.{MsgHeader, init}
use network_core.Net.Reader.{Msg, new_reader}
use network_core.Net.Tests.{ops, blank, hello_header}

abbrev ids : CallIds MsgHeader
ids = record { call_id = λ h. h.call_id; with_call_id = λ h n. record h { call_id = n } }

abbrev closed_connection : Connection MsgHeader
closed_connection = record {
  received_msg = false;
  is_running = false;
  force_close_error = false;
  disconnect_interval = 30;
  batch_send_msg = true;
  write_msg_queue = [];
  batch_msg = none;
  reader = new_reader ops blank hello_header;
  cur_call_id = 41;
  calls = [];
}

abbrev open_connection : Connection MsgHeader
open_connection = record closed_connection { is_running = true }

abbrev ping : Msg MsgHeader
ping = record { header = init 1 2 7 0 0 10 1; body = 5 ∷ [] }

abbrev pong : Msg MsgHeader
pong = record { header = init 2 1 7 42 0 11 0; body = [] }

abbrev socket : Socket MsgHeader
socket = record { conn = open_connection; sent = []; flying = idle }

socket-Inv : Inv ops socket []
socket-Inv = record { running = refl; shape = (refl, refl, refl) }

abbrev history : List (WriteEvent MsgHeader)
history = enqueue ping ∷ enqueue pong ∷ enqueue ping ∷ complete ∷ []

run-Inv_example : Inv ops (run ops socket history) (accepted history)
run-Inv_example = run-Inv ops socket history [] socket-Inv

busy-Inv : Inv ops (run ops socket history) (accepted history)
busy-Inv = run-Inv ops socket history [] socket-Inv

abbrev busy : Socket MsgHeader
busy = run ops socket history

busy-pending : pending busy.flying busy.conn ≤ 9
unfolding run step completes do_write async_write_msg write_queue write_as_batch handle_write
    handle_write_batch hton total_length init Batch.fill Batch.new_batch Batch.add_msg Batch.empty
    Batch.convert Batch.full Batch.length_full
busy-pending = omega arith

drains_example :
    ((run ops busy (replicate 9 complete)).flying ≡ idle)
    × ((run ops busy (replicate 9 complete)).sent ≡ map (hton ops) (ping ∷ pong ∷ ping ∷ []))
drains_example = drains ops 9 busy (ping ∷ pong ∷ ping ∷ []) busy-Inv busy-pending

dispatch_all-waiting_example :
    let (rest, out, new) = dispatch_all ops ids (pong ∷ ping ∷ []) ((42, 7) ∷ []) in
    (waiting 7 rest + resumed 7 out ≡ 1) × (length out + length new ≡ 2)
dispatch_all-waiting_example = dispatch_all-waiting ops ids 7 (pong ∷ ping ∷ []) ((42, 7) ∷ [])

ping_id : (assign_call_id ops ids ping 41).0 ≡ 42
unfolding assign_call_id init
ping_id = refl

do_await_write-reply_example :
    dispatch_all ops ids (pong ∷ []) (do_await_write ops ids ping 7 open_connection).0.calls
    ≡ ([], resume 7 pong ∷ [], [])
unfolding assign_call_id init find_call
do_await_write-reply_example =
    do_await_write-reply ops ids ping pong 7 open_connection refl refl (omega arith) refl

handle_timer_idle_example :
    handle_timer ops (start ops false closed_connection).0.1
    ≡ ((start ops false closed_connection).0.1, [])
handle_timer_idle_example =
    handle_timer_idle ops ids closed_connection (start ops false closed_connection).0.1 refl
      (next here (started false))
