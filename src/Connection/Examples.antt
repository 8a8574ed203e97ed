-- ===== src/Connection/Examples.antt =====
-- A connection at concrete requests and replies, and the theorems about it at such states.
use aedis.Prelude.{ℕ, ◌+◌, ◌≡◌, refl, true, false, Option, none, List, [], ◌∷◌, ◌++◌, arith}
use aedis.Prelude.Bytes.{Bytes, codes}
use aedis.Prelude.Run.{Ensures}
use aedis.Error.{Failure}
use aedis.Resp3.Node.{Node}
use aedis.Resp3.Parser.{reset}
use aedis.Request.{Request, default_config, make_request}
use aedis.Connection.{ReqInfo, Connection}
use aedis.Connection.Queue.{
  make_info, mark_written, mark_staged, proceed, add_request_info, coalesce_requests, on_write,
}
use aedis.Connection.Queue.Order.{Partitioned}
use aedis.Connection.Read.{on_read}
use aedis.Connection.Read.Delivery.{Delivery, on_read-Delivery}
use aedis.Connection.Read.Kept.{Kept}
use aedis.Connection.Steps.{adds, Step-Partitioned}
use aedis.Connection.Ownership.{held, Step-held}
use aedis.Connection.Writing.{coalesce_requests-staged, on_write-coalesce_requests}

-- Response objects that collect the values.
abbrev pub keep : ℕ → List Node → Node → List Node × Option Failure
keep i ns nd = (ns ++ nd ∷ [], none)

abbrev pub keep_push : List Node → Node → List Node × Option Failure
keep_push ns nd = (ns ++ nd ∷ [], none)

abbrev pub ping_request : Request
ping_request = record (make_request default_config) {
  payload = codes "*1\r\n$4\r\nPING\r\n";
  commands = 1;
  expected_responses = 1;
}

abbrev subscribe_request : Request
subscribe_request = record (make_request default_config) {
  payload = codes "*2\r\n$9\r\nSUBSCRIBE\r\n$1\r\nc\r\n";
  commands = 1;
}

abbrev pub hello_request : Request
hello_request = record ping_request {
  payload = codes "*2\r\n$5\r\nHELLO\r\n$1\r\n3\r\n";
  has_hello_priority = true;
}

abbrev pub ping : ReqInfo (List Node)
ping = make_info 1 ping_request []

abbrev pub subscribe : ReqInfo (List Node)
subscribe = make_info 2 subscribe_request []

abbrev pub hello : ReqInfo (List Node)
hello = make_info 3 hello_request []

abbrev pub idle : Connection (List Node) (List Node)
idle = record {
  read_buffer = [];
  write_buffer = [];
  reqs = [];
  parser = reset;
  on_push = false;
  cancel_run_called = false;
  usage = record {
    commands_sent = 0;
    bytes_sent = 0;
    responses_received = 0;
    pushes_received = 0;
    response_bytes_received = 0;
    push_bytes_received = 0;
  };
  is_open = true;
  receive_response = [];
  released = [];
  writer_wakes = 0;
  receive_cancels = 0;
}

-- One request was written, two wait.
abbrev pub busy : Connection (List Node) (List Node)
busy = record idle { reqs = mark_written ping ∷ subscribe ∷ hello ∷ [] }

pub busy_Partitioned : Partitioned busy.reqs
busy_Partitioned = (λ w. cc, (λ w. (refl, tt), (λ w. tt, tt)))

-- The reply to the written request is in the buffer.
abbrev pong : Bytes
pong = codes "+PONG\r\n"

abbrev pub replied : Connection (List Node) (List Node)
replied = record busy { read_buffer = pong }

Step-Partitioned_example : Partitioned (add_request_info hello busy).reqs
Step-Partitioned_example =
    Step-Partitioned keep keep_push (adds busy 3 hello_request [] (omega arith)) busy_Partitioned

Step-held_example : held 3 (add_request_info hello busy) ≡ 1 + held 3 busy
Step-held_example =
    Step-held keep keep_push 3 (adds busy 3 hello_request [] (omega arith)) busy_Partitioned

on_read-Delivery_example :
    Ensures (λ out. Delivery replied out.0 out.1) (on_read keep keep_push replied pong)
on_read-Delivery_example = on_read-Delivery keep keep_push replied pong

coalesce_requests-staged_example :
    ((coalesce_requests busy).0.reqs
      ≡ mark_written ping ∷ mark_staged subscribe ∷ mark_staged hello ∷ [])
    × ((coalesce_requests busy).0.write_buffer
        ≡ codes "*2\r\n$9\r\nSUBSCRIBE\r\n$1\r\nc\r\n*2\r\n$5\r\nHELLO\r\n$1\r\n3\r\n")
    × ((coalesce_requests busy).1 ≡ true)
coalesce_requests-staged_example = coalesce_requests-staged busy busy_Partitioned

on_write-coalesce_requests_example :
    ((on_write (coalesce_requests busy).0).reqs ≡ mark_written ping ∷ mark_written hello ∷ [])
    × ((on_write (coalesce_requests busy).0).released ≡ proceed (mark_staged subscribe) ∷ [])
    × ((on_write (coalesce_requests busy).0).write_buffer ≡ [])
on_write-coalesce_requests_example =
    on_write-coalesce_requests busy busy_Partitioned (refl, (refl, (refl, tt)))
