-- ===== src/Resp3/Reply/Examples.antt =====
-- A nested reply, and what the parser makes of it.
use aedis.Prelude.{
  ◌≡◌, refl, none, [], ◌∷◌, arith, length, word_mod, ◌<◌, inl, inr, List, cons-ne-nil,
}
use aedis.Prelude.Bytes.{Bytes, codes, to_string}
use aedis.Prelude.Run.{ok}
use aedis.Resp3.Types.{
  array, map, number, null, blob_string, streamed_string, streamed_string_part, to_code,
  is_aggregate, element_multiplicity,
}
use aedis.Resp3.Node.{Node}
use aedis.Resp3.Parser.{Parser, reset, finished, parse, parse_fuel, make_node}
use aedis.Resp3.Reply.{
  Reply, line, blob, stream, aggregate, nil, cons, print, nodes, count, Fits, mark,
}
use aedis.Resp3.Reply.Places.{Stands}
use aedis.Resp3.Reply.Parsed.{parse-reply}
use aedis.Resp3.Serialization.Command.{collect}
use aedis.Resp3.Serialization.Delivered.{collect-Takes}
use aedis.Resp3.Parser.Trace.{Takes}

-- An array of a number, a map of a blob to an empty array, a null, and a blob in two parts.
abbrev pub nested : Reply
nested = aggregate array 4 (
    cons (line number (codes "7")) (
      cons
        (aggregate map 1
          (cons (blob blob_string (codes "a\r\nb")) (cons (aggregate array 0 nil) nil)))
        (cons (line null []) (cons (stream blob_string (codes "xy" ∷ codes "z" ∷ [])) nil))))

abbrev ok_line : Bytes
ok_line = codes "+OK\r\n"

nested_printed :
    print nested ok_line
    ≡ codes
        "*4\r\n:7\r\n%1\r\n$4\r\na\r\nb\r\n*0\r\n_\r\n$?\r\n;2\r\nxy\r\n;1\r\nz\r\n;0\r\n+OK\r\n"
unfolding print mark to_string to_code
nested_printed = refl

nested_short : length (print nested ok_line) < word_mod
unfolding print to_string
nested_short = ground arith

pub nested-Fits : Fits 0 nested
unfolding Fits count element_multiplicity is_aggregate
nested-Fits = (
  refl,
  refl,
  inr (omega arith),
  (
    (cons-ne-nil b'7' [], omega arith),
    (
      (refl, refl, inr (omega arith), (tt, ((refl, refl, inl refl, tt), tt))),
      (
        (tt, tt),
        ((tt, omega arith, (cons-ne-nil b'x' (codes "y"), (cons-ne-nil b'z' [], tt))), tt),
      ),
    ),
  ),
)

abbrev pub nested_nodes : List Node
nested_nodes =
    make_node array 4 0 []
    ∷ make_node number 1 1 (codes "7")
    ∷ make_node map 1 1 []
    ∷ make_node blob_string 1 2 (codes "a\r\nb")
    ∷ make_node array 0 2 []
    ∷ make_node null 1 1 []
    ∷ make_node streamed_string 0 2 []
    ∷ make_node streamed_string_part 1 2 (codes "xy")
    ∷ make_node streamed_string_part 1 2 (codes "z")
    ∷ make_node streamed_string_part 1 2 []
    ∷ []

nested_taken : Takes collect [] (nodes 0 nested) nested_nodes
unfolding nodes
nested_taken = collect-Takes [] nested_nodes

parse-reply_example :
    (q : Parser) × (parse collect
        (parse_fuel (print nested ok_line))
        reset
        (print nested ok_line)
        []
      ≡ ok (finished q nested_nodes none))
    × Stands q.consumed (print nested ok_line) ok_line
parse-reply_example =
    parse-reply collect [] nested_nodes nested ok_line nested_short nested-Fits nested_taken
