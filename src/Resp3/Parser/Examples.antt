-- ===== src/Resp3/Parser/Examples.antt =====
-- Runs of the parser at concrete inputs, and the theorems about it at such inputs.
use aedis.Prelude.{◌≡◌, refl, Option, none, List, [], ◌∷◌, ◌++◌, arith}
use aedis.Prelude.Bytes.{Bytes, codes, from_chars}
use aedis.Prelude.Run.{Run, ok, crash, out_of_bounds, out_of_range}
use aedis.Error.{Failure}
use aedis.Resp3.Types.{array, element_multiplicity, simple_string, blob_string, invalid}
use aedis.Resp3.Node.{Node}
use aedis.Resp3
use aedis.Resp3.Parser.{
  Parser, reset, Parsed, needs_more, finished, parse, make_node, parse_fuel, Step, more, consume,
  find_sep, read_aggregate, consume_impl,
}
use aedis.Resp3.Parser.Safety.{reset-Inv, is_faulty, After, consume-After}
use aedis.Resp3.Parser.Resume.{consume-resume}
use aedis.Resp3.Parser.Trace.{trace, conclude, parse-trace}

-- An adapter that collects the nodes.
abbrev collect : List Node → Node → List Node × Option Failure
collect ns nd = (ns ++ nd ∷ [], none)

abbrev nodes : Run (Parsed (List Node)) → List Node
nodes (ok (finished p ns e)) = ns
nodes (ok (needs_more p ns)) = ns
nodes (crash e) = []

abbrev pair_reply : Bytes
pair_reply = codes "*2\r\n+OK\r\n$3\r\na\r\n\r\n"

pair_nodes :
    nodes (parse collect (parse_fuel pair_reply) reset pair_reply [])
    ≡ make_node array 2 0 []
      ∷ make_node simple_string 1 1 (codes "OK")
      ∷ make_node blob_string 1 1 (codes "a\r\n")
      ∷ []
unfolding parse Resp3.Parser.consume Resp3.Parser.done from_chars element_multiplicity
pair_nodes = refl

-- An empty bulk header: the exception of `elem.at(0)` leaves a noexcept function.
abbrev empty_bulk : Bytes
empty_bulk = codes "$\r\n"

empty_bulk_throws : consume reset empty_bulk ≡ crash out_of_range
unfolding consume
empty_bulk_throws = refl

-- A streamed string in five arrays: its size is stored behind the end of `sizes_`.
abbrev deep : Parser
deep = record {
  depth = 5;
  sizes = 2 ∷ 1 ∷ 1 ∷ 1 ∷ 1 ∷ 1 ∷ [];
  bulk_length = 0;
  bulk = invalid;
  consumed = 20;
}

deep_stream_overruns : consume (record deep { consumed = 0 }) (codes "$?\r\n") ≡ crash out_of_bounds
unfolding consume
deep_stream_overruns = refl

-- The end of a streamed string outside of one.
stray_part_overruns : consume reset (codes ";0\r\n") ≡ crash out_of_bounds
unfolding consume from_chars
stray_part_overruns = refl

consume-After_example :
    After reset empty_bulk (is_faulty reset empty_bulk) (consume reset empty_bulk)
consume-After_example = consume-After reset empty_bulk reset-Inv (omega arith) (ground arith)

-- A bulk string that arrives in two chunks, and the parser between them.
abbrev half : Bytes
half = codes "$5\r\nhe"

abbrev half_read : Parser
half_read = record reset { bulk_length = 5; bulk = blob_string; consumed = 4 }

half_more : consume reset half ≡ ok (more half_read)
unfolding consume from_chars
half_more = refl

consume-resume_example :
    consume half_read (half ++ codes "llo\r\n") ≡ consume reset (half ++ codes "llo\r\n")
consume-resume_example =
    consume-resume reset half_read half (codes "llo\r\n") reset-Inv (omega arith) (ground arith)
      half_more

parse-trace_example :
    parse collect (parse_fuel pair_reply) reset pair_reply []
    ≡ conclude (trace (parse_fuel pair_reply) reset pair_reply).1 (
        make_node array 2 0 []
        ∷ make_node simple_string 1 1 (codes "OK")
        ∷ make_node blob_string 1 1 (codes "a\r\n")
        ∷ [])
unfolding trace Resp3.Parser.consume Resp3.Parser.done from_chars element_multiplicity
parse-trace_example =
    parse-trace collect (parse_fuel pair_reply) reset pair_reply []
      (make_node array 2 0 []
        ∷ make_node simple_string 1 1 (codes "OK")
        ∷ make_node blob_string 1 1 (codes "a\r\n")
        ∷ [])
      (refl, (refl, (refl, refl)))
