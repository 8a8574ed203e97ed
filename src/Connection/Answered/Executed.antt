-- ===== src/Connection/Answered/Executed.antt =====
-- The life of a pipeline: async_exec, a turn of the writer, the replies, and the completions.
use aedis.Prelude.{
  ℕ, ◌+◌, ◌*◌, ◌≤◌, ◌<◌, ◌≡◌, ◌≢◌, refl, sym, ap, ◌∙◌, true, false, Option, none, List, [], ◌∷◌,
  ◌++◌, append-nil, map, All, arith, length, word_mod,
}
use aedis.Prelude.Bytes.{Bytes}
use aedis.Prelude.Run.{ok}
use aedis.Error.{Failure}
use aedis.Resp3.Node.{Node}
use aedis.Resp3.Parser.{reset}
use aedis.Connection.{Connection}
use aedis.Connection.Queue.{mark_staged}
use aedis.Connection.Exec.{complete, wait, not_cancelled, exec_wake, exec_cancelled}
use aedis.Connection.Writing.{payloads}
use aedis.Connection.Writer.{writing, sleeping, writer_written, writer_woken}
use aedis.Connection.Reader.{reading}
use aedis.Connection.Answered.{facing, Exchange}
use aedis.Connection.Answered.Pipeline.{
  infos, print_exchanges, handed, all_handed, all_answered, handed-released,
}
use aedis.Connection.Answered.Chunks.{concat, feed, feed-handed}
use aedis.Connection.Answered.Calls.{
  start_all, Call, IsCall, calls, exchanges, exchanges-IsExchange, with_queue, start_all-calls,
}
use aedis.Connection.Answered.Turn.{staged_usage, writer_woken-calls, writer_written-calls}

module _ {R S : Type 0} where
  -- Nothing is queued, to be written, or begun to be read.
  pub record IsIdle (c : Connection R S) : Type 0 where
    pub is_open : c.is_open ≡ true
    pub no_requests : c.reqs ≡ []
    pub nothing_to_write : c.write_buffer ≡ []
    pub nothing_to_read : c.read_buffer ≡ []
    pub fresh : c.parser ≡ reset
    pub no_push : c.on_push ≡ false

  idle-with_queue : (c : Connection R S) → IsIdle c → c ≡ with_queue c c.writer_wakes c.usage [] []
  idle-with_queue c idle = ground arith

module _ {R S : Type 0} (adapt : ℕ → R → Node → R × Option Failure)
    (receive_adapter : S → Node → S × Option Failure) where
  handed-kept :
      (ys : List (Exchange adapt)) (c : Connection R S)
      → ((all_handed adapt receive_adapter c ys).is_open ≡ c.is_open)
        × ((all_handed adapt receive_adapter c ys).write_buffer ≡ c.write_buffer)
  handed-kept [] c = (refl, refl)
  handed-kept (y ∷ ys) c = handed-kept ys (handed adapt receive_adapter c y.info y.replies y.filled)

  completed-answered :
      (xs : List (Call adapt)) (d : Connection R S)
      → All
          (λ ri. exec_wake not_cancelled ri d ≡ ok (complete d none ri.read_size))
          (all_answered adapt receive_adapter (exchanges adapt xs))
  unfolding exec_wake exec_cancelled
  completed-answered [] d = tt
  completed-answered (x ∷ xs) d = (refl, completed-answered xs d)

  -- On an open connection on which nothing is queued, to be written or begun to be read, and where
  -- nothing is cancelled: where one request or more, each of them without HELLO priority and
  -- expecting a response at least, are started by exec_op one behind the other, each of them wakes
  -- the writer; the writer stages the payloads of all of them in order and, behind a successful
  -- write, sleeps. When one reply for each response that they expect then arrives, of fewer than
  -- 2^64 bytes in all and none of them a push, in whatever chunks, none of them empty, the first
  -- read asks for at most 4096 bytes and `max_read_size` is at least 4096 more than twice the bytes
  -- that arrive, and the requests' adapters take the nodes of their replies without an error or an
  -- exception, then no read is refused room in the buffer, and behind the last chunk the reader
  -- waits for more on a connection on which nothing is queued, to be written or begun to be read
  -- again; it has handed the requests back in order, each with what its adapters made of its own
  -- replies, and exec_op completes each of them without an error and with the bytes read for it.
  pub executed-calls :
      (x : Call adapt) (xs : List (Call adapt)) (vs : List Bytes) (c : Connection R S)
      (max_read_size n : ℕ)
      → IsIdle c
      → All (IsCall adapt) (x ∷ xs)
      → All (λ v. v ≢ []) vs
      → concat vs ≡ print_exchanges adapt receive_adapter (exchanges adapt (x ∷ xs))
      → length (print_exchanges adapt receive_adapter (exchanges adapt (x ∷ xs))) < word_mod
      → n ≤ 4096
      → 4096 + 2 * length (print_exchanges adapt receive_adapter (exchanges adapt (x ∷ xs)))
        ≤ max_read_size
      → (queued : Connection R S) × (staged : Connection R S) × (sent : Connection R S) × (m : ℕ)
        × (d : Connection R S) × (start_all (calls adapt (x ∷ xs)) c ≡ wait queued)
        × (queued.writer_wakes ≡ c.writer_wakes + length (x ∷ xs))
        × (writer_woken false queued ≡ writing staged)
        × (staged.write_buffer ≡ payloads (calls adapt (x ∷ xs)))
        × (writer_written none false staged ≡ sleeping sent)
        × (feed adapt receive_adapter max_read_size (reading n sent) vs ≡ ok (reading m d))
        × IsIdle d
        × (d.released ≡ c.released ++ all_answered adapt receive_adapter (exchanges adapt (x ∷ xs)))
        × All
            (λ ri. exec_wake not_cancelled ri d ≡ ok (complete d none ri.read_size))
            (all_answered adapt receive_adapter (exchanges adapt (x ∷ xs)))
  executed-calls x xs vs c max_read_size n idle h whole stream bound asked room =
      let ys = exchanges adapt (x ∷ xs) in
      let ris = calls adapt (x ∷ xs) in
      let wakes = c.writer_wakes + length (x ∷ xs) in
      let staged = staged_usage c.usage ris (payloads ris) in
      let usage = staged_usage {R = R} staged [] [] in
      let c' = with_queue c wakes usage [] [] in
      let start = idle-with_queue c idle in
      let (m, run) =
        feed-handed adapt receive_adapter ys vs c' [] max_read_size n idle.is_open
          (exchanges-IsExchange adapt (x ∷ xs) h) whole stream bound asked room in
      let d = facing (all_handed adapt receive_adapter c' ys) [] [] in
      let (still_open, unwritten) = handed-kept ys c' in
      (
        with_queue c wakes c.usage ris [],
        with_queue c wakes staged (map mark_staged ris) (payloads ris),
        with_queue c wakes usage (infos adapt receive_adapter ys) [],
        m,
        d,
        ap (start_all ris) start
            ∙ start_all-calls adapt (x ∷ xs) c c.writer_wakes c.usage [] idle.is_open h,
        refl,
        writer_woken-calls adapt receive_adapter x xs c wakes c.usage idle.is_open,
        refl,
        writer_written-calls adapt receive_adapter (x ∷ xs) c wakes staged (payloads ris)
            idle.is_open h,
        ap
              (λ q.
                feed adapt receive_adapter max_read_size (reading n (with_queue c wakes usage q []))
                  vs)
              (sym (append-nil (infos adapt receive_adapter ys)))
            ∙ run,
        record {
          is_open = still_open ∙ idle.is_open;
          no_requests = refl;
          nothing_to_write = unwritten;
          nothing_to_read = refl;
          fresh = refl;
          no_push = refl;
        },
        handed-released adapt receive_adapter ys c',
        completed-answered (x ∷ xs) d,
      )
