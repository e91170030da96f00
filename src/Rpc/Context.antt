-- ===== src/Rpc/Context.antt =====
-- `base_rpc_context` of network/rpc/net/async_rpc_context.hpp: one call or one answer, with its
-- header, its bytes, the handlers that wait for the outcome, and the outcome. The handlers are
-- flags, and what is called is a list of callbacks; the barrier is a flag too.
pub mod Outcome
use network_core.Common.{
  ℕ, ◌+◌, ◌*◌, ◌^◌, ◌%◌, Bool, true, false, not, ◌&&◌, ◌||◌, Option, none, some, List, [], ◌∷◌,
  ◌++◌, ◌==◌, leb, if◌then◌else◌, length, replicate, Bytes,
}
use network_core.Net.Errors
use network_core.Net.Errors.{ErrorCode}
use network_core.Rpc.Wire.{RpcHeader}

-- `net_result` of network/net/exception.hpp: the code and the value of the system's error
pub record NetResult : Type 0 where
  pub code : ErrorCode
  pub sys_value : ℕ

abbrev pub app_error : ErrorCode → NetResult
app_error code = record { code = code; sys_value = 0 }

-- net_result(boost::system::error_code)
unfoldable pub sys_error : ℕ → NetResult
sys_error value = record { code = if value == 0 then Errors.ok else Errors.fail; sys_value = value }

pub record Context (H : Type 0) : Type 0 where
  pub head : H
  pub send_msg : Bytes
  pub recv_msg : Bytes
  pub err : NetResult
  pub has_on_ok : Bool
  pub has_on_error : Bool
  pub has_barrier : Bool
  pub has_post_func : Bool
  pub has_timer : Bool
  pub is_over : Bool
  pub duration : ℕ
  pub reply_protocol_id : ℕ

pub data Callback : Type 0 where
  ran_on_ok : Bytes → Callback
  ran_on_error : NetResult → Callback
  notified : Callback
  ran_post_func : Callback

-- the values of `cytx::error_code`
unfoldable pub code_number : ErrorCode → ℕ
code_number Errors.ok = 0
code_number Errors.fail = 100
code_number Errors.unknown = 101
code_number Errors.timeout = 102
code_number Errors.cancel = 103
code_number Errors.connect_fail = 104
code_number Errors.badconnect = 105
code_number Errors.codec_fail = 106
code_number Errors.invalid_header = 107
code_number Errors.be_disconnected = 108
code_number Errors.repeat_connect = 109
code_number Errors.no_handler = 110
code_number Errors.remote_error = 111
code_number Errors.recv_error = 112
code_number Errors.send_error = 113

-- the members that no constructor sets
unfoldable pub new_context : {H : Type 0} → H → Bytes → Bool → Context H
new_context head msg has_post_func = record {
  head = head;
  send_msg = msg;
  recv_msg = [];
  err = app_error Errors.ok;
  has_on_ok = false;
  has_on_error = false;
  has_barrier = false;
  has_post_func = has_post_func;
  has_timer = false;
  is_over = false;
  duration = 0;
  reply_protocol_id = 0;
}

module _ {H : Type 0} (ops : RpcHeader H) where
  -- the constructor for an answer, through make_message: the length is a uint32_t
  unfoldable pub make_message : H → Bytes → Bool → Context H
  unfolding new_context
  make_message h msg has_post_func =
      new_context (ops.set_length (length msg % 2 ^ 32) h) msg has_post_func

  unfoldable pub make_error_message : H → ErrorCode → Context H
  unfolding make_message code_number
  make_error_message h code = make_message (ops.set_result (code_number code % 2 ^ 16) h) [] false

unfoldable pub have_reply_process : {H : Type 0} → Context H → Bool
have_reply_process ctx = ctx.has_on_ok || (ctx.has_on_error || (ctx.has_barrier || ctx.has_timer))

unfoldable pub has_handler : {H : Type 0} → Context H → Bool
has_handler ctx = ctx.has_on_ok || (ctx.has_on_error || ctx.has_barrier)

-- get_recv_message: the buffer that the body is read into
unfoldable pub get_recv_message : {H : Type 0} → ℕ → Context H → Context H
get_recv_message size ctx = record ctx { recv_msg = replicate size 0 }

abbrev pub when : Bool → Callback → List Callback
when true c = c ∷ []
when false c = []

unfoldable pub complete_ok : {H : Type 0} → Context H → Context H × List Callback
complete_ok ctx =
    if not ctx.is_over
    then (
      record ctx { is_over = true },
      when ctx.has_on_ok (ran_on_ok ctx.recv_msg) ++ when ctx.has_barrier notified,
    )
    else (ctx, [])

unfoldable pub post_error : {H : Type 0} → NetResult → Context H → Context H × List Callback
post_error e ctx =
    if not ctx.is_over
    then (
      record ctx { is_over = true },
      when ctx.has_on_error (ran_on_error e) ++ when ctx.has_barrier notified,
    )
    else (ctx, [])

-- `error`, which stores its argument also when the call is over
unfoldable pub complete_error : {H : Type 0} → NetResult → Context H → Context H × List Callback
unfolding post_error
complete_error e ctx = post_error e (record ctx { err = e })

unfoldable pub create_barrier : {H : Type 0} → Context H → Context H
create_barrier ctx = if not ctx.has_barrier then record ctx { has_barrier = true } else ctx

unfoldable pub apply_post_func : {H : Type 0} → Context H → List Callback
apply_post_func ctx = when ctx.has_post_func ran_post_func

unfoldable pub set_duration : {H : Type 0} → ℕ → Context H → Context H
set_duration d ctx = record ctx { duration = d }

-- `wait` behind the barrier: what it throws
unfoldable pub is_success : NetResult → Bool
unfolding code_number
is_success r = (code_number r.code == 0) && (r.sys_value == 0)

unfoldable pub wait_throws : {H : Type 0} → Context H → Option NetResult
unfolding is_success
wait_throws ctx = if is_success ctx.err then none else some ctx.err
