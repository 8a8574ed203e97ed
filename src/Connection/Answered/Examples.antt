-- ===== src/Connection/Answered/Examples.antt =====
-- Two requests whose replies arrive in three chunks.
use aedis.Prelude.{
  ℕ, ◌+◌, ◌*◌, ◌≤◌, ◌<◌, ◌≡◌, ◌≢◌, refl, sym, ap, false, List, [], ◌∷◌, ◌++◌, arith, length,
  word_mod, All, cons-ne-nil, append-nil, append_assoc, none,
}
use aedis.Prelude.Bytes.{Bytes, codes, to_string}
use aedis.Prelude.Run.{Run, ok}
use aedis.Resp3.Types.{simple_string, number, to_code}
use aedis.Resp3.Node.{Node}
use aedis.Resp3.Parser.{reset, make_node}
use aedis.Resp3.Parser.Trace.{Takes}
use aedis.Resp3.Reply.{line, print, nodes, mark, Fits}
use aedis.Resp3.Reply.Examples.{nested, nested_nodes, nested-Fits}
use aedis.Request.{Request}
use aedis.Connection.{Connection}
use aedis.Connection.Queue.{make_info, mark_written}
use aedis.Connection.Exec.{complete, wait, not_cancelled, exec_wake}
use aedis.Connection.Writing.{payloads}
use aedis.Connection.Writer.{writing, sleeping, writer_woken, writer_written}
use aedis.Connection.Reader.{reading}
use aedis.Connection.Answered.{facing, Exchange, IsExchange}
use aedis.Connection.Answered.Pipeline.{infos, print_exchanges, all_answered}
use aedis.Connection.Answered.Chunks.{feed, concat, feed-exchanges}
use aedis.Connection.Answered.Calls.{Call, IsCall, calls, start_all}
use aedis.Connection.Answered.Executed.{IsIdle, executed-calls}
use aedis.Adapter.{raising_all}
use aedis.Adapter.Raising.{raising-Fills, static_adapter-Absorbs}
use aedis.Adapter.Traits.{static_adapter}
use aedis.Adapter.Filled.{
  Element, IsFilled, visiting, befores, afters, replies, static_adapter-Fills,
}
use aedis.Adapter.Examples.{collect, nothing_pushed, unused, pair_request}

abbrev single_request : Request
single_request = record pair_request { commands = 1; expected_responses = 1 }

abbrev first : Exchange (raising_all (static_adapter collect))
first = record {
  info = mark_written (make_info 1 single_request (ok ([] ∷ [])));
  replies = line simple_string (codes "PONG") ∷ [];
  filled = ok ((make_node simple_string 1 0 (codes "PONG") ∷ []) ∷ []);
}

-- The elements of the second response, of which the first gets a nested reply.
abbrev elements : List (Element collect)
elements =
    record { before = []; reply = nested; after = nested_nodes }
    ∷ record {
      before = [];
      reply = line number (codes "1");
      after = make_node number 1 0 (codes "1") ∷ [];
    }
    ∷ []

collected : (acc ns : List Node) → Takes (visiting collect) (ok acc) ns (ok (acc ++ ns))
collected acc [] = ap ok (sym (append-nil acc))
collected acc (nd ∷ ns) =
    (refl, rw (← append_assoc acc (nd ∷ []) ns) (collected (acc ++ nd ∷ []) ns))

elements-IsFilled : All (IsFilled collect) elements
unfolding nodes
elements-IsFilled =
    (collected [] nested_nodes, (collected [] (make_node number 1 0 (codes "1") ∷ []), tt))

abbrev second : Exchange (raising_all (static_adapter collect))
second = record {
  info = mark_written (make_info 2 pair_request (ok ([] ∷ [] ∷ [])));
  replies = replies collect elements;
  filled = ok (afters collect elements);
}

first-IsExchange : IsExchange (raising_all (static_adapter collect)) first
unfolding nodes Fits static_adapter
first-IsExchange = record {
  sent = refl;
  expected = refl;
  fresh = refl;
  several = omega arith;
  responses = (((tt, omega arith), refl), tt);
  fills = (first.filled, (refl, refl), refl);
}

second-IsExchange : IsExchange (raising_all (static_adapter collect)) second
unfolding Fits
second-IsExchange = record {
  sent = refl;
  expected = refl;
  fresh = refl;
  several = omega arith;
  responses = ((nested-Fits, refl), (((cons-ne-nil b'1' [], omega arith), refl), tt));
  fills =
      raising-Fills (static_adapter collect) (static_adapter-Absorbs collect) second.replies 0
        (ok (befores collect elements)) (afters collect elements)
        (static_adapter-Fills collect elements elements-IsFilled);
}

-- The cuts are in a line, in a bulk and in a header.
abbrev chunks : List Bytes
chunks =
    codes "+PO"
    ∷ codes "NG\r\n*4\r\n:7\r\n%1\r\n$4\r\na\r"
    ∷ codes "\nb\r\n*0\r\n_\r\n$?\r\n;2\r\nxy\r\n;1\r"
    ∷ codes "\nz\r\n;0\r\n:1\r\n"
    ∷ []

abbrev exchanges : List (Exchange (raising_all (static_adapter collect)))
exchanges = first ∷ second ∷ []

chunks_printed :
    concat chunks ≡ print_exchanges (raising_all (static_adapter collect)) nothing_pushed exchanges
unfolding print mark to_string to_code
chunks_printed = refl

printed_short :
    length (print_exchanges (raising_all (static_adapter collect)) nothing_pushed exchanges)
    < word_mod
unfolding print mark to_string to_code
printed_short = ground arith

printed_fits :
    4096
      + 2 * length (print_exchanges (raising_all (static_adapter collect)) nothing_pushed exchanges)
    ≤ 8192
unfolding print mark to_string to_code
printed_fits = ground arith

chunks_full : All (λ v. v ≢ []) chunks
chunks_full = (
  cons-ne-nil b'+' (codes "PO"),
  (
    cons-ne-nil b'N' (codes "G\r\n*4\r\n:7\r\n%1\r\n$4\r\na\r"),
    (
      cons-ne-nil b'\n' (codes "b\r\n*0\r\n_\r\n$?\r\n;2\r\nxy\r\n;1\r"),
      (cons-ne-nil b'\n' (codes "z\r\n;0\r\n:1\r\n"), tt),
    ),
  ),
)

abbrev State : Type 0
State = Connection (Run (List (List Node))) (List Node)

feed-exchanges_example :
    (m : ℕ) × (d : State) × (feed
        (raising_all (static_adapter collect))
        nothing_pushed
        8192
        (reading 4096 (
          facing unused
            (infos (raising_all (static_adapter collect)) nothing_pushed exchanges ++ [])
            []))
        chunks
      ≡ ok (reading m d))
    × (d.reqs ≡ [])
    × (d.released
        ≡ unused.released
          ++ all_answered (raising_all (static_adapter collect)) nothing_pushed exchanges)
    × (d.read_buffer ≡ [])
    × (d.parser ≡ reset)
    × (d.on_push ≡ false)
feed-exchanges_example =
    feed-exchanges (raising_all (static_adapter collect)) nothing_pushed exchanges chunks unused []
      8192 4096 refl (first-IsExchange, (second-IsExchange, tt)) chunks_full chunks_printed
      printed_short (omega arith) printed_fits

abbrev first_call : Call (raising_all (static_adapter collect))
first_call = record {
  id = 1;
  request = single_request;
  object = ok ([] ∷ []);
  replies = first.replies;
  filled = first.filled;
}

abbrev second_call : Call (raising_all (static_adapter collect))
second_call = record {
  id = 2;
  request = pair_request;
  object = ok ([] ∷ [] ∷ []);
  replies = second.replies;
  filled = second.filled;
}

abbrev both : List (Call (raising_all (static_adapter collect)))
both = first_call ∷ second_call ∷ []

both-IsCall : All (IsCall (raising_all (static_adapter collect))) both
both-IsCall =
    let one = first-IsExchange in
    let two = second-IsExchange in
    (
      record {
        plain = refl;
        expected = one.fresh;
        several = one.several;
        responses = one.responses;
        fills = one.fills;
      },
      (
        record {
          plain = refl;
          expected = two.fresh;
          several = two.several;
          responses = two.responses;
          fills = two.fills;
        },
        tt,
      ),
    )

unused-IsIdle : IsIdle unused
unused-IsIdle = record {
  is_open = refl;
  no_requests = refl;
  nothing_to_write = refl;
  nothing_to_read = refl;
  fresh = refl;
  no_push = refl;
}

executed-calls_example :
    (queued : State) × (staged : State) × (sent : State) × (m : ℕ) × (d : State) × (start_all
        (calls (raising_all (static_adapter collect)) both)
        unused
      ≡ wait queued)
    × (queued.writer_wakes ≡ 2)
    × (writer_woken false queued ≡ writing staged)
    × (staged.write_buffer ≡ payloads (calls (raising_all (static_adapter collect)) both))
    × (writer_written none false staged ≡ sleeping sent)
    × (feed (raising_all (static_adapter collect)) nothing_pushed 8192 (reading 4096 sent) chunks
        ≡ ok (reading m d))
    × IsIdle d
    × (d.released
        ≡ unused.released
          ++ all_answered (raising_all (static_adapter collect)) nothing_pushed exchanges)
    × All
        (λ ri. exec_wake not_cancelled ri d ≡ ok (complete d none ri.read_size))
        (all_answered (raising_all (static_adapter collect)) nothing_pushed exchanges)
executed-calls_example =
    executed-calls (raising_all (static_adapter collect)) nothing_pushed first_call
      (second_call ∷ []) chunks unused 8192 4096 unused-IsIdle both-IsCall chunks_full
      chunks_printed printed_short (omega arith) printed_fits
