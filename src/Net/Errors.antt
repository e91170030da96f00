-- ===== src/Net/Errors.antt =====
-- `cytx::error_code` of network/net/common.hpp.
pub data ErrorCode : Type 0 where
  ok fail unknown timeout cancel connect_fail badconnect codec_fail : ErrorCode
  invalid_header be_disconnected repeat_connect no_handler : ErrorCode
  remote_error recv_error send_error : ErrorCode
