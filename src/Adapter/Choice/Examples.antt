-- ===== src/Adapter/Choice/Examples.antt =====
-- A response with eight elements.
use aedis.Prelude.{true, none, some, List, [], ◌∷◌}
use aedis.Prelude.Bytes.{codes}
use aedis.Resp3.Types.{array, set, map, number, null, simple_string, blob_string}
use aedis.Resp3.Reply.{line, blob, aggregate, nil, cons}
use aedis.Resp3.Reply.Examples.{nested, nested_nodes}
use aedis.Adapter.{value}
use aedis.Adapter.Choice.{
  string, unsigned, scalar, optional, vector, array_of, set_of_strings, map_of, generic, ignored,
}
use aedis.Adapter.Choice.Responses.{Command}

abbrev counter : Command
counter = record {
  type = scalar unsigned;
  reply = line number (codes "42");
  object = (value 42, tt);
}

abbrev absent : Command
absent = record { type = optional string; reply = line null []; object = (value none, tt) }

abbrev sequence : Command
sequence = record {
  type = vector string;
  reply =
      aggregate array 2
        (cons (blob blob_string (codes "a")) (cons (line simple_string (codes "b")) nil));
  object = (value (codes "a" ∷ codes "b" ∷ []), tt);
}

abbrev pair_of_numbers : Command
pair_of_numbers = record {
  type = array_of 2 unsigned;
  reply = aggregate array 2 (cons (line number (codes "7")) (cons (line number (codes "8")) nil));
  object = (value (7 ∷ 8 ∷ []), 3);
}

abbrev members : Command
members = record {
  type = set_of_strings;
  reply = aggregate set 3 (
      cons (blob blob_string (codes "x"))
        (cons (blob blob_string (codes "y")) (cons (blob blob_string (codes "x")) nil)));
  object = (value (codes "x" ∷ codes "y" ∷ []), tt);
}

abbrev fields : Command
fields = record {
  type = map_of unsigned;
  reply =
      aggregate map 1 (cons (blob blob_string (codes "k")) (cons (line number (codes "9")) nil));
  object = (value ((codes "k", 9) ∷ []), record { current = some (codes "k"); on_key = true });
}

abbrev whole : Command
whole = record { type = generic; reply = nested; object = value nested_nodes }

abbrev status : Command
status = record { type = ignored; reply = line simple_string (codes "OK"); object = tt }

abbrev commands : List Command
commands = counter ∷ absent ∷ sequence ∷ pair_of_numbers ∷ members ∷ fields ∷ whole ∷ status ∷ []
