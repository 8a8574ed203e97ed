-- ===== src/Connection/Scenarios.antt =====
-- Lives of requests on a connection, and the theorems about them.
use aedis.Prelude.{map, ◌+◌, ◌≡◌, refl, true, false, none, some, List, [], ◌∷◌, ◌++◌, arith, All}
use aedis.Prelude.Bytes.{codes}
use aedis.Prelude.Run.{ok, ◌>>=◌}
use aedis.Error.{operation_aborted}
use aedis.Resp3.Node.{Node}
use aedis.Request.{default_config}
use aedis.Connection.{all, ReqInfo, Connection}
use aedis.Connection.Queue.{
  make_info, mark_written, mark_staged, add_request_info, coalesce_requests, on_write, cancel,
  remove_request,
}
use aedis.Connection.Queue.Order.{IsWaiting, Partitioned}
use aedis.Connection.Steps.{adds, coalesces, writes, cancels}
use aedis.Connection.History.{History, start, next, History-held}
use aedis.Connection.Resent.{next_run, coalesce_requests-next_run}
use aedis.Connection.Append.{append_start, append_done, append_some-appends}
use aedis.Connection.Fifo.{
  adding, sending, releasing, losing, clearing, Fifos, ticket, abstract_queue,
}
use aedis.Connection.Fifo.Refinement.{History-Fifos}
use aedis.Connection.Writer.{writer_written, IsAwakeable, writer_written-IsAwakeable}
use aedis.Connection.Exec.{terminal, complete, exec_cancelled}
use aedis.Connection.Removal.{History-remove_request}
use aedis.Connection.Cancelled.{exec_cancelled-sent}
use aedis.Connection.Ownership.{count}
use aedis.Connection.Examples.{
  keep, keep_push, ping_request, hello_request, ping, hello, idle, busy, busy_Partitioned,
}

-- The life of a request: added, written with its turn, and cancelled.
abbrev cancelled : Connection (List Node) (List Node)
cancelled = cancel all (on_write (coalesce_requests (add_request_info ping idle)).0)

abbrev ping_history : History keep keep_push idle cancelled
ping_history =
    next
      (next
        (next (next (start idle) (adds idle 1 ping_request [] (omega arith)))
          (coalesces (add_request_info ping idle)))
        (writes (coalesce_requests (add_request_info ping idle)).0))
      (cancels (on_write (coalesce_requests (add_request_info ping idle)).0) all)

History-Fifos_example :
    Fifos
      (adding false (1, 1) ∷ sending ∷ releasing ∷ losing ∷ clearing ∷ [])
      ([], [])
      (abstract_queue cancelled.reqs)
    × (map ticket cancelled.reqs
        ≡ (abstract_queue cancelled.reqs).0 ++ (abstract_queue cancelled.reqs).1)
unfolding on_write coalesce_requests add_request_info
History-Fifos_example = History-Fifos keep keep_push ping_history refl

History-held_example :
    (count 1 cancelled.reqs + count 1 cancelled.released ≡ 1) × Partitioned cancelled.reqs
History-held_example = History-held keep keep_push 1 ping_history refl refl

-- A request that is withdrawn, with a HELLO in front of it.
abbrev waiting_pair : Connection (List Node) (List Node)
waiting_pair = add_request_info hello (add_request_info ping idle)

abbrev pair_history : History keep keep_push idle waiting_pair
pair_history =
    next (next (start idle) (adds idle 1 ping_request [] (omega arith)))
      (adds (add_request_info ping idle) 3 hello_request [] (omega arith))

History-remove_request_example :
    (e : Connection (List Node) (List Node)) × (remove_request 1 waiting_pair ≡ ok e)
    × (count 1 e.reqs ≡ 0)
    × (count 1 e.released ≡ 1)
    × (count 3 e.reqs ≡ 1)
unfolding add_request_info
History-remove_request_example =
    History-remove_request keep keep_push 1 3 pair_history refl refl refl (ground arith)
      (λ e. absurd (omega arith))

writer_written-IsAwakeable_example : IsAwakeable hello (writer_written none false busy)
writer_written-IsAwakeable_example = writer_written-IsAwakeable hello busy busy_Partitioned

-- A request that was sent and is to survive a lost connection.
abbrev stubborn : ReqInfo (List Node)
stubborn = mark_written (
    make_info 4
      (record ping_request { cfg = record default_config { cancel_if_unresponded = false } }) [])

abbrev stubborn_sent : Connection (List Node) (List Node)
stubborn_sent = record idle { reqs = stubborn ∷ [] }

-- It is in the queue behind the end of its operation.
exec_cancelled-sent_example :
    (d : Connection (List Node) (List Node)) × (exec_cancelled terminal stubborn stubborn_sent
      ≡ ok (complete d (some operation_aborted) 0))
    × (count 4 d.reqs ≡ 1)
    × All IsWaiting d.reqs
exec_cancelled-sent_example = exec_cancelled-sent stubborn stubborn_sent refl refl

-- Two commands of which one was answered, on a connection that is lost: both are sent again, for one
-- response.
abbrev half_answered : ReqInfo (List Node)
half_answered =
    record (mark_written (
      make_info 5
        (record stubborn.req {
          payload = codes "*1\r\n$4\r\nPING\r\n*1\r\n$4\r\nPING\r\n";
          commands = 2;
          expected_responses = 2;
        })
        [])) { expected_responses = 1 }

abbrev half_done : Connection (List Node) (List Node)
half_done = record idle { reqs = half_answered ∷ mark_written ping ∷ [] }

coalesce_requests-next_run_example :
    ((coalesce_requests (next_run half_done)).0.write_buffer ≡ half_answered.req.payload)
    × ((coalesce_requests (next_run half_done)).0.reqs ≡ mark_staged half_answered ∷ [])
    × ((coalesce_requests (next_run half_done)).1 ≡ true)
coalesce_requests-next_run_example = coalesce_requests-next_run half_done refl

-- Four bytes are asked for behind two, and three arrive.
append_some-appends_example :
    ((append_start 100 4 (codes "+O") >>= λ b. ok (append_done 2 none (codes "K\r\n") b))
      ≡ ok (codes "+OK\r\n", none, 3))
    × ((append_start 100 4 (codes "+O") >>= λ b.
          ok (append_done 2 (some operation_aborted) (codes "K\r\n") b))
        ≡ ok (codes "+O" ++ 0 ∷ 0 ∷ 0 ∷ 0 ∷ [], some operation_aborted, 0))
append_some-appends_example =
    append_some-appends 100 4 (codes "+O") (codes "K\r\n") operation_aborted
