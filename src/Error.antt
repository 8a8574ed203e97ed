-- ===== src/Error.antt =====
-- error.hpp and impl/error.ipp: the library's errors and their values in an `error_code`.
use aedis.Prelude.{ℕ}
use aedis.Prelude.Run.{Fault}
use aedis.Prelude.Bytes.{Bytes, codes}

pub data Error : Type 0 where
  invalid_data_type not_a_number exceeeds_max_nested_depth unexpected_bool_value : Error
  empty_field expects_resp3_simple_type expects_resp3_aggregate expects_resp3_map : Error
  expects_resp3_set nested_aggregate_not_supported resp3_simple_error resp3_blob_error : Error
  incompatible_size not_a_double resp3_null not_connected resolve_timeout : Error
  connect_timeout pong_timeout ssl_handshake_timeout sync_receive_push_failed : Error
  incompatible_node_depth : Error

-- Why a function object that is called with a node does not go on: the error code that it sets, or an
-- exception that it throws.
pub data Failure : Type 0 where
  error_code : Error → Failure
  exception : Fault → Failure

-- A `system::error_code` that is set: the library's, `asio::error::operation_aborted`, or another of
-- the system's by its number. An `error_code` is an `Option Code`.
pub data Code : Type 0 where
  redis : Error → Code
  operation_aborted : Code
  system : ℕ → Code

-- The value of the enumerator, which `make_error_code` stores in the `error_code`.
unfoldable pub make_error_code : Error → ℕ
make_error_code invalid_data_type = 1
make_error_code not_a_number = 2
make_error_code exceeeds_max_nested_depth = 3
make_error_code unexpected_bool_value = 4
make_error_code empty_field = 5
make_error_code expects_resp3_simple_type = 6
make_error_code expects_resp3_aggregate = 7
make_error_code expects_resp3_map = 8
make_error_code expects_resp3_set = 9
make_error_code nested_aggregate_not_supported = 10
make_error_code resp3_simple_error = 11
make_error_code resp3_blob_error = 12
make_error_code incompatible_size = 13
make_error_code not_a_double = 14
make_error_code resp3_null = 15
make_error_code not_connected = 16
make_error_code resolve_timeout = 17
make_error_code connect_timeout = 18
make_error_code pong_timeout = 19
make_error_code ssl_handshake_timeout = 20
make_error_code sync_receive_push_failed = 21
make_error_code incompatible_node_depth = 22

-- `error_category_impl::message`
unfoldable pub error_message : Error → Bytes
error_message invalid_data_type = codes "Invalid resp3 type."
error_message not_a_number =
    codes "Can't convert string to number (maybe forgot to upgrade to RESP3?)."
error_message exceeeds_max_nested_depth = codes "Exceeds the maximum number of nested responses."
error_message unexpected_bool_value = codes "Unexpected bool value."
error_message empty_field = codes "Expected field value is empty."
error_message expects_resp3_simple_type = codes "Expects a resp3 simple type."
error_message expects_resp3_aggregate = codes "Expects resp3 aggregate."
error_message expects_resp3_map = codes "Expects resp3 map."
error_message expects_resp3_set = codes "Expects resp3 set."
error_message nested_aggregate_not_supported = codes "Nested aggregate not_supported."
error_message resp3_simple_error = codes "Got RESP3 simple-error."
error_message resp3_blob_error = codes "Got RESP3 blob-error."
error_message incompatible_size = codes "Aggregate container has incompatible size."
error_message not_a_double = codes "Not a double."
error_message resp3_null = codes "Got RESP3 null."
error_message not_connected = codes "Not connected."
error_message resolve_timeout = codes "Resolve timeout."
error_message connect_timeout = codes "Connect timeout."
error_message pong_timeout = codes "Pong timeout."
error_message ssl_handshake_timeout = codes "SSL handshake timeout."
error_message sync_receive_push_failed =
    codes "Can't receive server push synchronously without blocking."
error_message incompatible_node_depth = codes "Incompatible node depth."
