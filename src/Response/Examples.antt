-- ===== src/Response/Examples.antt =====
-- A generic response with two messages.
use aedis.Prelude.{refl, arith, [], ◌∷◌}
use aedis.Prelude.Bytes.{Bytes, codes, from_chars}
use aedis.Resp3.Types.{array, simple_string, element_multiplicity}
use aedis.Resp3.Node.{Node}
use aedis.Resp3
use aedis.Resp3.Parser.{reset, parse_fuel, make_node}
use aedis.Resp3.Parser.Trace.{trace}
use aedis.Adapter.{value}
use aedis.Response.{consume_one}
use aedis.Response.Consume.{Consumed, consume_one-trace}

abbrev first_reply : Bytes
first_reply = codes "*1\r\n+OK\r\n"

abbrev second : Node
second = make_node simple_string 1 0 (codes "PONG")

consume_one-trace_example :
    Consumed
      (make_node array 1 0 [] ∷ make_node simple_string 1 1 (codes "OK") ∷ [])
      (second ∷ [])
      (consume_one
        (value (make_node array 1 0 [] ∷ make_node simple_string 1 1 (codes "OK") ∷ second ∷ [])))
unfolding trace Resp3.Parser.consume Resp3.Parser.done from_chars element_multiplicity
consume_one-trace_example =
    consume_one-trace first_reply (parse_fuel first_reply) (second ∷ []) (ground arith) refl
