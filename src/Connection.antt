-- ===== src/Connection.antt =====
-- detail/connection_base.hpp, usage.hpp and operation.hpp: the state of a connection.
--
-- A request's bookkeeping is shared by the queue and by the operation that waits for it; nothing
-- changes it any more once it has left the queue, so the queue holds it by value, and `released` has
-- those that left it, in order. `notified` and `stopped` are what its notifier channel shows: a
-- message was sent, and the channel was closed. `writer_wakes` and `receive_cancels` count the calls
-- of `writer_timer_.cancel()` and `receive_channel_.cancel()`. `R` is the type of the users' response
-- objects and `S` that of the object that receives server pushes.
pub mod Queue
pub mod Read
pub mod Exec
pub mod Steps
pub mod Ownership
pub mod Writing
pub mod Resent
pub mod Append
pub mod History
pub mod Bounds
pub mod Fifo
pub mod Answered
pub mod Writer
pub mod Reader
pub mod Cancelled
pub mod Removal
pub mod Examples
pub mod Scenarios
use aedis.Prelude.{ℕ, Bool, Option, List}
use aedis.Prelude.Bytes.{Bytes}
use aedis.Error.{Error}
use aedis.Resp3.Parser.{Parser}
use aedis.Request.{Request}

pub data Status : Type 0 where
  waiting staged written : Status

pub data Operation : Type 0 where
  resolve connect ssl_handshake exec run receive reconnection health_check all : Operation

pub record Usage : Type 0 where
  pub commands_sent : ℕ
  pub bytes_sent : ℕ
  pub responses_received : ℕ
  pub pushes_received : ℕ
  pub response_bytes_received : ℕ
  pub push_bytes_received : ℕ

-- `req_info`; `id` stands for its address.
pub record ReqInfo (R : Type 0) : Type 0 where
  pub id : ℕ
  pub req : Request
  pub resp : R
  pub expected_responses : ℕ
  pub status : Status
  pub ec : Option Error
  pub read_size : ℕ
  pub notified : Bool
  pub stopped : Bool

pub record Connection (R S : Type 0) : Type 0 where
  pub read_buffer : Bytes
  pub write_buffer : Bytes
  pub reqs : List (ReqInfo R)
  pub parser : Parser
  pub on_push : Bool
  pub cancel_run_called : Bool
  pub usage : Usage
  pub is_open : Bool
  pub receive_response : S
  pub released : List (ReqInfo R)
  pub writer_wakes : ℕ
  pub receive_cancels : ℕ
