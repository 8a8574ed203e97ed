-- ===== src/Resp3/Serialization/Delivered.antt =====
-- An array of bulk strings, handed to any adapter.
use aedis.Prelude.{
  ◌<◌, ◌≡◌, refl, sym, ap, ◌∙◌, Option, none, List, [], ◌∷◌, ◌++◌, append_assoc, append-nil, length,
  map, word_mod,
}
use aedis.Prelude.Bytes.{Bytes}
use aedis.Prelude.Run.{ok}
use aedis.Error.{Failure}
use aedis.Resp3.Types.{array}
use aedis.Resp3.Node.{Node}
use aedis.Resp3.Parser.{Parser, reset, make_node, finished, parse, parse_fuel}
use aedis.Resp3.Parser.Trace.{
  End, incomplete, complete, refused, faulted, trace, conclude, Takes, parse-trace,
}
use aedis.Resp3.Serialization.Wire.{command}
use aedis.Resp3.Serialization.Command.{collect, element, Behind, parse-command}

pub collect-Takes : (acc ns : List Node) → Takes collect acc ns (acc ++ ns)
collect-Takes acc [] = sym (append-nil acc)
collect-Takes acc (nd ∷ ns) =
    (refl, rw (← append_assoc acc (nd ∷ []) ns) (collect-Takes (acc ++ nd ∷ []) ns))

-- Which trace ends with the given nodes in the given state.
conclude-complete :
    (e : End) (ns ms : List Node) (q : Parser)
    → conclude e ns ≡ ok (finished q ms none)
    → (e ≡ complete q) × (ns ≡ ms)
conclude-complete (incomplete p) ns ms q e = absurd (cc)
conclude-complete (complete p) ns ms q e = (cc, cc)
conclude-complete (refused p x) ns ms q e = absurd (cc)
conclude-complete (faulted f) ns ms q e = absurd (cc)

-- The nodes that an adapter is handed for an array of bulk strings.
abbrev pub reply_nodes : List Bytes → List Node
reply_nodes ss = make_node array (length ss) 0 [] ∷ map element ss

-- An array of one bulk string or more, of fewer than 2^64 bytes with more data behind it, read with an adapter
-- that takes its header and its strings: `parse` returns what the adapter made of exactly these
-- nodes, without an error, and stops behind the array.
pub parse-reply_nodes :
    {A : Type 0} (adapter : A → Node → A × Option Failure) (a b : A) (s : Bytes) (ss : List Bytes)
    (rest : Bytes)
    → length (command (s ∷ ss) rest) < word_mod
    → Takes adapter a (reply_nodes (s ∷ ss)) b
    → (q : Parser) × (parse adapter
          (parse_fuel (command (s ∷ ss) rest))
          reset
          (command (s ∷ ss) rest)
          a
        ≡ ok (finished q b none))
      × Behind q (command (s ∷ ss) rest) rest
parse-reply_nodes adapter a b s ss rest bound takes =
    let view = command (s ∷ ss) rest in
    let (q, run, behind) = parse-command s ss rest bound in
    let tr = trace (parse_fuel view) reset view in
    let collected =
      parse-trace collect (parse_fuel view) reset view [] tr.0 (collect-Takes [] tr.0) in
    let (ended, nodes) =
      conclude-complete tr.1 tr.0 (reply_nodes (s ∷ ss)) q (sym collected ∙ run) in
    (
      q,
      parse-trace adapter (parse_fuel view) reset view a b (rw nodes takes)
          ∙ ap (λ e. conclude e b) ended,
      behind,
    )
