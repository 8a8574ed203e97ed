-- ===== src/Connection/Answered/Chunks.antt =====
-- The replies to a pipeline of requests, received in any chunks.
use aedis.Prelude.{
  ℕ, ◌+◌, ◌*◌, ◌≤◌, ◌<◌, ◌≡◌, ◌≢◌, refl, sym, ap, ◌∙◌, true, false, Option, List, [], ◌∷◌, ◌++◌,
  arith, length, length-append, All, word_mod,
}
use aedis.Prelude.Bytes.{Bytes}
use aedis.Prelude.Run.{Run, ok, ◌>>=◌}
use aedis.Error.{Failure}
use aedis.Resp3.Node.{Node}
use aedis.Resp3.Parser.{reset}
use aedis.Connection.{ReqInfo, Connection}
use aedis.Connection.Reader.{ReaderOut, reading, sending, completed, received, reader_appended}
use aedis.Connection.Answered.{facing, Exchange, IsExchange}
use aedis.Connection.Answered.Pipeline.{
  infos, print_exchanges, all_answered, all_handed, handed-released, length-print_replies,
}
use aedis.Connection.Answered.Begun.{Resting, begin_exchanges}
use aedis.Connection.Append.{append_start, append_start-fits}
use aedis.Connection.Answered.Arrival.{chunk-Paused}

abbrev pub concat : List Bytes → Bytes
concat [] = []
concat (v ∷ vs) = v ++ concat vs

module _ {R S : Type 0} (adapt : ℕ → R → Node → R × Option Failure)
    (receive_adapter : S → Node → S × Option Failure) where
  -- The reader from a point of suspension, as data arrives. Each read first grows the buffer, whose
  -- capacity is `max_read_size`.
  pub feed : ℕ → ReaderOut R S → List Bytes → Run (ReaderOut R S)
  feed max_read_size out [] = ok out
  feed max_read_size (reading n d) (v ∷ vs) = append_start max_read_size n d.read_buffer >>= λ buf.
      reader_appended adapt receive_adapter (received v) false d >>= λ out.
      feed max_read_size out vs
  feed max_read_size (sending n d) (v ∷ vs) = ok (sending n d)
  feed max_read_size (completed d ec) (v ∷ vs) = ok (completed d ec)

  feed-Resting :
      (vs : List Bytes) (max_read_size total n : ℕ) (d goal : Connection R S)
      → Resting adapt receive_adapter d (concat vs) goal
      → (concat vs ≡ [] → d ≡ goal)
      → All (λ v. v ≢ []) vs
      → length d.read_buffer + length (concat vs) ≤ total
      → n ≤ 4096 + total
      → 4096 + 2 * total ≤ max_read_size
      → (m : ℕ) × (feed max_read_size (reading n d) vs ≡ ok (reading m goal))
  unfolding feed
  feed-Resting [] max_read_size total n d goal resting at_end h within asked room =
      (n, ap (λ x. ok (reading n x)) (at_end refl))
  feed-Resting (v ∷ vs) max_read_size total n d goal resting at_end (ne, others) within asked room =
      let size = length-append v (concat vs) in
      let (n', d', run, resting', at_end', buffer, growth) =
        chunk-Paused adapt receive_adapter d v (concat vs) goal resting ne in
      let (m, rest) =
        feed-Resting vs max_read_size total n' d' goal resting' at_end' others (omega arith)
          (omega arith) room in
      let fits = append_start-fits max_read_size n d.read_buffer (omega arith) in
      (m, rw (fits, run) rest)

  -- The replies in chunks lead to the connection that has handed all requests back.
  pub feed-handed :
      (xs : List (Exchange adapt)) (vs : List Bytes) (c : Connection R S)
      (behind : List (ReqInfo R)) (max_read_size n : ℕ)
      → c.is_open ≡ true
      → All (IsExchange adapt) xs
      → All (λ v. v ≢ []) vs
      → concat vs ≡ print_exchanges adapt receive_adapter xs
      → length (print_exchanges adapt receive_adapter xs) < word_mod
      → n ≤ 4096
      → 4096 + 2 * length (print_exchanges adapt receive_adapter xs) ≤ max_read_size
      → (m : ℕ) × (feed max_read_size
            (reading n (facing c (infos adapt receive_adapter xs ++ behind) []))
            vs
          ≡ ok (reading m (facing (all_handed adapt receive_adapter c xs) behind [])))
  feed-handed xs vs c behind max_read_size n o h whole stream bound asked room =
      let goal : Connection R S = facing (all_handed adapt receive_adapter c xs) behind [] in
      let start : Connection R S = facing c (infos adapt receive_adapter xs ++ behind) [] in
      feed-Resting vs max_read_size (length (print_exchanges adapt receive_adapter xs)) n start goal
        (begin_exchanges adapt receive_adapter xs c behind [] (concat vs) goal o h stream bound
          refl)
        (λ none_left. at_once xs (sym stream ∙ none_left) h) whole (omega (arith, ap length stream))
        (omega arith) room
    where
      -- With no data to come there is no request to answer.
      at_once :
          (ys : List (Exchange adapt))
          → print_exchanges adapt receive_adapter ys ≡ []
          → All (IsExchange adapt) ys
          → facing c (infos adapt receive_adapter ys ++ behind) []
            ≡ facing (all_handed adapt receive_adapter c ys) behind []
      at_once [] e h = refl
      at_once (y ∷ ys) e (one, _) = absurd (
          omega (
            arith,
            one.several,
            ap length e,
            length-print_replies y.replies (print_exchanges adapt receive_adapter ys),
          ))

  -- On an open connection between two messages that has read everything so far, where the front of
  -- the queue has requests that were sent and have no reply yet: when one reply for each response
  -- that they expect arrives, of fewer than 2^64 bytes in all and none of them a push, in whatever
  -- chunks, none of them empty, the first read asks for at most 4096 bytes and `max_read_size` is
  -- at least 4096 more than twice the bytes that arrive, and the requests' adapters take the nodes
  -- of their replies without an error or an exception, then no read is refused room in the buffer,
  -- and behind the last chunk the reader waits for more. Each of these requests has been handed
  -- back, in order, with what its adapters made of its own replies, the queue behind them is as it
  -- was, the buffer is empty and the parser fresh.
  pub feed-exchanges :
      (xs : List (Exchange adapt)) (vs : List Bytes) (c : Connection R S)
      (behind : List (ReqInfo R)) (max_read_size n : ℕ)
      → c.is_open ≡ true
      → All (IsExchange adapt) xs
      → All (λ v. v ≢ []) vs
      → concat vs ≡ print_exchanges adapt receive_adapter xs
      → length (print_exchanges adapt receive_adapter xs) < word_mod
      → n ≤ 4096
      → 4096 + 2 * length (print_exchanges adapt receive_adapter xs) ≤ max_read_size
      → (m : ℕ) × (d : Connection R S) × (feed max_read_size
            (reading n (facing c (infos adapt receive_adapter xs ++ behind) []))
            vs
          ≡ ok (reading m d))
        × (d.reqs ≡ behind)
        × (d.released ≡ c.released ++ all_answered adapt receive_adapter xs)
        × (d.read_buffer ≡ [])
        × (d.parser ≡ reset)
        × (d.on_push ≡ false)
  feed-exchanges xs vs c behind max_read_size n o h whole stream bound asked room =
      let (m, run) = feed-handed xs vs c behind max_read_size n o h whole stream bound asked room in
      (
        m,
        facing (all_handed adapt receive_adapter c xs) behind [],
        run,
        refl,
        handed-released adapt receive_adapter xs c,
        refl,
        refl,
        refl,
      )
