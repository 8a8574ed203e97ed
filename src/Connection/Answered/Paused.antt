-- ===== src/Connection/Answered/Paused.antt =====
-- The reader where a part of the replies has arrived.
use aedis.Prelude.{
  ℕ, zero, suc, ◌+◌, ◌≤◌, ◌<◌, ◌≡◌, ◌≢◌, refl, sym, ap, ◌∙◌, inl, inr, true, false, Option, List,
  [], ◌∷◌, ◌++◌, arith, length, length-append, length-drop, drop, drop-append, sub_word, ◌==◌,
  subst, cons-ne-nil,
}
use aedis.Prelude.Bytes.{Bytes}
use aedis.Prelude.Run.{Run, ok, ◌>>=◌}
use aedis.Error.{Failure}
use aedis.Resp3.Node.{Node}
use aedis.Resp3.Parser.{Parser, Parsed, get_suggested_buffer_growth, parse, parse_fuel}
use aedis.Resp3.Reply.{print}
use aedis.Resp3.Reply.Growth.{growth-Visits, growth-reset}
use aedis.Resp3.Reply.Lengths.{length-print, print_pos}
use aedis.Resp3.Reply.Chunks.{Outcome, parse-Outcome}
use aedis.Connection.{ReqInfo, Connection}
use aedis.Connection.Read.{info_adapter, after_response, on_read, suggested_growth}
use aedis.Connection.Reader.{ReaderOut, reading, is_empty, reader_read}
use aedis.Connection.Answered.{size}
use aedis.Connection.Answered.Pipeline.{onward, read_round}
use aedis.Connection.Answered.Midway.{amid, remaining, Front-resp, Midway, on_read-parse}
use aedis.Connection.Answered.Begun.{Resting, next_reply}

module _ {R S : Type 0} (adapt : ℕ → R → Node → R × Option Failure)
    (receive_adapter : S → Node → S × Option Failure) where
  -- The reader suspends in a read that asks for no more bytes than this, with at most `most` bytes
  -- in the buffer, and where nothing is to come it is behind the last reply.
  abbrev pub Paused : ℕ → Bytes → Connection R S → Run (ReaderOut R S) → Type 0
  Paused most coming goal r =
      (n : ℕ) × (d : Connection R S) × (r ≡ ok (reading n d))
      × Resting adapt receive_adapter d coming goal
      × (coming ≡ [] → d ≡ goal)
      × (length d.read_buffer ≤ most)
      × (n ≤ 4096 + (most + length coming))

  growth-Midway :
      (c : Connection R S) (ri : ReqInfo R) (ris : List (ReqInfo R)) (p : Parser)
      (seen coming : Bytes) (goal : Connection R S)
      → Midway adapt receive_adapter c ri ris p seen coming goal
      → get_suggested_buffer_growth p 4096 ≤ 4096 + (length seen + length coming)
  growth-Midway c ri ris p seen coming goal mid =
      let size = ap length mid.stream in
      let both = length-append seen coming in
      omega (
        arith,
        growth-Visits mid.visits mid.ended mid.bound (omega (arith, mid.inside, size, both)),
        size,
        both,
      )

  -- The loop behind a response; `again` is its next round.
  onward-Paused :
      (fuel most : ℕ) (d : Connection R S) (coming : Bytes) (goal : Connection R S)
      → Resting adapt receive_adapter d coming goal
      → ((c : Connection R S) (ri : ReqInfo R) (ris : List (ReqInfo R)) (p : Parser) (seen : Bytes)
          → Midway adapt receive_adapter c ri ris p seen coming goal
          → seen ≢ []
          → length seen ≤ length d.read_buffer
          → Paused most coming goal
              (reader_read adapt receive_adapter fuel (amid c (ri ∷ ris) p seen)))
      → length d.read_buffer ≤ most
      → Paused most coming goal (onward adapt receive_adapter fuel d)
  onward-Paused fuel most d coming goal (inr (e, buffer, fresh, none_left)) again le =
      let empty : is_empty d.read_buffer ≡ true = ap is_empty buffer in
      (
        suggested_growth d,
        d,
        rw (empty, onward) refl,
        inr (e, buffer, fresh, none_left),
        λ _. e,
        le,
        rw (fresh) (growth-reset most (length coming)),
      )
  onward-Paused fuel most d coming goal (inl (c, ri, ris, p, seen, e, mid)) again most_le =
      subst (λ x. Paused most coming goal (onward adapt receive_adapter fuel x)) (sym e)
        (by_buffer seen mid (omega (arith, ap (λ (x : Connection R S). length x.read_buffer) e)))
    where
      by_buffer :
          (seen : Bytes)
          → Midway adapt receive_adapter c ri ris p seen coming goal
          → length seen ≤ length d.read_buffer
          → Paused most coming goal (onward adapt receive_adapter fuel (amid c (ri ∷ ris) p seen))
      by_buffer [] mid le = (
        suggested_growth (amid c (ri ∷ ris) p []),
        amid c (ri ∷ ris) p [],
        refl,
        inl (c, ri, ris, p, [], refl, mid),
        λ none_left. absurd (
            omega (
              arith,
              ap length mid.stream,
              ap length none_left,
              length-print mid.reply (remaining adapt receive_adapter mid.replies mid.exchanges),
              print_pos mid.reply,
            )),
        omega arith,
        omega (arith, growth-Midway c ri ris p [] coming goal mid),
      )
      by_buffer (x ∷ seen) mid le = again c ri ris p (x ∷ seen) mid (cons-ne-nil x seen) le

  -- What follows the parser in a call of `on_read`.
  turn-Paused :
      (fuel most : ℕ) (c : Connection R S) (ri : ReqInfo R) (ris : List (ReqInfo R)) (p : Parser)
      (seen coming : Bytes) (goal : Connection R S) (r : Run (Parsed R))
      (mid : Midway adapt receive_adapter c ri ris p seen coming goal)
      → on_read adapt receive_adapter (amid c (ri ∷ ris) p seen) seen
        ≡ (r >>= λ x. ok (after_response adapt receive_adapter ri ris (amid c (ri ∷ ris) p seen) x))
      → Outcome
          (adapt mid.command)
          (print mid.reply (remaining adapt receive_adapter mid.replies mid.exchanges))
          seen
          coming
          mid.last
          mid.middle
          r
      → ((d : Connection R S)
          → Resting adapt receive_adapter d coming goal
          → length d.read_buffer < length seen
          → Paused most coming goal (onward adapt receive_adapter fuel d))
      → length seen ≤ most
      → Paused most coming goal
          (reader_read adapt receive_adapter (suc fuel) (amid c (ri ∷ ris) p seen))
  unfolding reader_read after_response
  turn-Paused fuel most c ri ris p seen coming goal r mid run (inr (p', a, stopped, pending)) again
        le =
      let d : Connection R S = amid c (record ri { resp = a } ∷ ris) p' seen in
      let mid' : Midway adapt receive_adapter c (record ri { resp = a }) ris p' seen coming goal =
        record {
          reply = mid.reply;
          replies = mid.replies;
          exchanges = mid.exchanges;
          command = mid.command;
          middle = mid.middle;
          filled = mid.filled;
          last = mid.last;
          ahead = pending.nodes;
          front =
              Front-resp adapt receive_adapter c ri ris mid.reply mid.replies mid.exchanges
                mid.command a mid.filled goal mid.front;
          visits = pending.visits;
          ended = mid.ended;
          stands = mid.stands;
          inside = pending.inside;
          takes = pending.takes;
          fills = mid.fills;
          stream = mid.stream;
          bound = mid.bound;
        } in
      (
        suggested_growth d,
        d,
        rw (run, stopped) refl,
        inl (c, record ri { resp = a }, ris, p', seen, refl, mid'),
        λ none_left. absurd (pending.short none_left),
        le,
        omega (arith, growth-Midway c (record ri { resp = a }) ris p' seen coming goal mid'),
      )
  turn-Paused fuel most c ri ris p seen coming goal r mid run (inl (ended, inside)) again le =
      let tail = remaining adapt receive_adapter mid.replies mid.exchanges in
      let consumed : mid.last.consumed ≡ size mid.reply =
        omega (arith, mid.stands.1, length-print mid.reply tail) in
      let stream : drop (size mid.reply) seen ++ coming ≡ tail =
        sym (drop-append (size mid.reply) seen coming (omega arith))
        ∙ ap (drop (size mid.reply)) mid.stream
        ∙ ap (λ k. drop k (print mid.reply tail)) (sym consumed)
        ∙ mid.stands.0 in
      let (d, answered, resting, buffer) =
        next_reply adapt receive_adapter c ri ris p mid.last mid.reply mid.replies mid.exchanges
          mid.command mid.middle mid.filled seen coming goal mid.front mid.fills consumed stream
          mid.bound in
      subst (Paused most coming goal)
        (sym (
          read_round adapt receive_adapter fuel (size mid.reply) (amid c (ri ∷ ris) p seen) d
            (run ∙ rw ended (ap ok answered))))
        (again d resting
          (omega (arith, ap length buffer, length-drop (size mid.reply) seen, print_pos mid.reply)))

  pub read-Paused :
      (fuel most : ℕ) (c : Connection R S) (ri : ReqInfo R) (ris : List (ReqInfo R)) (p : Parser)
      (seen coming : Bytes) (goal : Connection R S)
      → Midway adapt receive_adapter c ri ris p seen coming goal
      → seen ≢ []
      → length seen < fuel
      → length seen ≤ most
      → Paused most coming goal (reader_read adapt receive_adapter fuel (amid c (ri ∷ ris) p seen))
  read-Paused zero most c ri ris p seen coming goal mid ne enough le = elim enough [ ]
  read-Paused (suc fuel) most c ri ris p seen coming goal mid ne enough le =
      let tail = remaining adapt receive_adapter mid.replies mid.exchanges in
      let index : sub_word ri.req.expected_responses ri.expected_responses ≡ mid.command =
        omega (arith, mid.front.fresh, mid.front.expected, mid.front.small) in
      let due : (ri.expected_responses == 0) ≡ false = rw (mid.front.expected) (ground arith) in
      let run =
        on_read-parse adapt receive_adapter c ri ris p seen coming mid.reply tail ne mid.stream
          mid.front.sent due mid.front.responses.0 in
      turn-Paused fuel most c ri ris p seen coming goal
        (parse (info_adapter adapt receive_adapter ri) (parse_fuel seen) p seen ri.resp) mid run
        (subst
          (λ i.
            Outcome (adapt mid.command) (print mid.reply tail) seen coming mid.last mid.middle
              (parse (adapt i) (parse_fuel seen) p seen ri.resp))
          (sym index)
          (parse-Outcome (adapt mid.command) (parse_fuel seen) (print mid.reply tail) seen coming
            mid.visits ri.resp mid.middle mid.stream mid.bound mid.ended mid.inside (omega arith)
            mid.takes))
        (λ d resting less.
          onward-Paused fuel most d coming goal resting
            (λ c' ri' ris' p' seen' mid' ne' within.
              read-Paused fuel most c' ri' ris' p' seen' coming goal mid' ne' (omega arith)
                (omega arith))
            (omega arith))
        le
