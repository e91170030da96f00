-- ===== src/Rpc/Calls.antt =====
-- The two `base_call_container`s of network/rpc/net/async_rpc_context.hpp: the calls to be sent and
-- the calls that wait for a reply. A context is known by a number, and what a push changes in it
-- is returned. The servers' container finds a call by its id; the clients' one keeps a queue for
-- each protocol of a reply.
pub mod Lanes
use network_core.Common.{
  ℕ, ◌+◌, ◌%◌, ◌^◌, Bool, true, false, ◌&&◌, Option, none, some, List, [], ◌∷◌, ◌++◌, ◌==◌,
  if◌then◌else◌,
}
use network_core.Net.Connection.{find_call, erase_call, emplace_call}
use network_core.Rpc.Context.{Context, have_reply_process}
use network_core.Rpc.Protocol
use network_core.Rpc.Wire.{RpcHeader}

pub record CallContainer : Type 0 where
  pub call_map : List (ℕ × ℕ)
  pub call_list : List ℕ
  pub cur_id : ℕ

unfoldable pub new_calls : CallContainer
new_calls = record { call_map = []; call_list = []; cur_id = 0 }

module _ {H : Type 0} (ops : RpcHeader H) where
  unfoldable pub push_call_response : ℕ → Context H → CallContainer → CallContainer × Context H
  unfolding emplace_call
  push_call_response id ctx c =
      let call_id = (c.cur_id + 1) % 2 ^ 32 in
      if ops.need_reply ctx.head
      then (
        record c { cur_id = call_id; call_map = emplace_call call_id id c.call_map },
        record ctx { head = ops.set_call_id call_id ctx.head },
      )
      else (c, ctx)

  unfoldable pub push_call : ℕ → Context H → CallContainer → CallContainer × Context H
  unfolding push_call_response have_reply_process
  push_call id ctx c =
      let (c', ctx') =
        if ops.need_reply ctx.head && have_reply_process ctx
        then push_call_response id ctx c
        else (c, ctx) in
      (record c' { call_list = c'.call_list ++ (id ∷ []) }, ctx')

-- get_call_from_map, and remove_call_from_map
unfoldable pub get_call : ℕ → CallContainer → Option ℕ × CallContainer
unfolding find_call erase_call
get_call call_id c =
    (find_call call_id c.call_map, record c { call_map = erase_call call_id c.call_map })

-- task_calls_from_list and task_calls_from_map: what they hand over, and what is left
unfoldable pub task_list : CallContainer → List ℕ × CallContainer
task_list c = (c.call_list, record c { call_list = [] })

unfoldable pub task_map : CallContainer → List (ℕ × ℕ) × CallContainer
task_map c = (c.call_map, record c { call_map = [] })

-- `call_map_` of the clients' container
abbrev pub Lanes : Type 0
Lanes = List (ℕ × List ℕ)

-- what `get_call_from_map` gives; `front` of an empty queue is undefined
pub data Taken : Type 0 where
  no_call : Taken
  took : ℕ → Taken
  undefined : Taken

-- base_rpc_context::reply_protocol
unfoldable pub reply_protocol_of : ℕ → ℕ → ℕ
unfolding Protocol.reply_protocol
reply_protocol_of reply_protocol_id protocol_id =
    if reply_protocol_id == 0 then Protocol.reply_protocol protocol_id else reply_protocol_id

-- push_call_response for a call that needs a reply
unfoldable pub push_lane : ℕ → ℕ → Lanes → Lanes
push_lane protocol id [] = (protocol, id ∷ []) ∷ []
push_lane protocol id ((k, queue) ∷ m) =
    if k == protocol then (k, queue ++ (id ∷ [])) ∷ m else (k, queue) ∷ push_lane protocol id m

-- the queue that was found, without its front, and dropped when empty
unfoldable pub pop_queue : ℕ → List ℕ → Lanes → Taken × Lanes
pop_queue k [] m = (undefined, (k, []) ∷ m)
pop_queue k (id ∷ []) m = (took id, m)
pop_queue k (id ∷ (next ∷ queue)) m = (took id, (k, next ∷ queue) ∷ m)

unfoldable pub get_lane : ℕ → Lanes → Taken × Lanes
unfolding pop_queue
get_lane protocol [] = (no_call, [])
get_lane protocol ((k, queue) ∷ m) =
    let rest = get_lane protocol m in
    if k == protocol then pop_queue k queue m else (rest.0, (k, queue) ∷ rest.1)
