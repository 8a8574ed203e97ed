-- ===== src/Adapter/Examples.antt =====
-- Adapters at concrete replies.
use aedis.Prelude.{
  ◌<◌, ◌≡◌, refl, inl, inr, true, false, Option, none, some, List, [], ◌∷◌, ◌++◌, arith, length,
  word_mod,
}
use aedis.Prelude.Bytes.{Bytes, codes, to_string, bytes_eq}
use aedis.Prelude.Run.{Run, ok, crash, error_access}
use aedis.Error.{Failure, Error}
use aedis.Resp3.Types.{
  array, map, simple_string, blob_string, simple_error, is_aggregate, element_multiplicity,
}
use aedis.Resp3.Node.{Node}
use aedis.Resp3.Parser.{Parser, reset, finished, parse, parse_fuel, make_node}
use aedis.Resp3.Parser.Trace.{Takes}
use aedis.Resp3.Serialization.Wire.{command}
use aedis.Resp3.Serialization.Command.{Behind, element}
use aedis.Request.{Request, make_request}
use aedis.Request
use aedis.Connection.{ReqInfo, Connection}
use aedis.Connection.Queue.{make_info, mark_staged, add_request_info, coalesce_requests}
use aedis.Connection.Read.{info_adapter}
use aedis.Connection.Steps.{adds, coalesces}
use aedis.Connection.History.{History, start, next}
use aedis.Adapter.{value, string_bulk, general_aggregate, list_impl, wrapper, raising, raising_all}
use aedis.Adapter.Replies.{list-reply, general_aggregate-error}
use aedis.Adapter.Traits.{static_adapter}
use aedis.Adapter.Served.{Served, History-Served}
use aedis.Adapter.Containers.{Pairs, map_start, map_impl}
use aedis.Adapter.Containers.Lookup.{lookup, last_value, map-Takes}
use aedis.Adapter.Tuple.{make_tuple_adapter, count_node, tuple_adapter}
use aedis.Adapter.Tuple.Groups.{tuple_adapter-Takes}

-- The reply to `LRANGE`, and a push behind it.
abbrev items : Bytes
items = command (codes "one" ∷ codes "t\r\no" ∷ []) (codes ">1\r\n+x\r\n")

items_short : length items < word_mod
unfolding to_string
items_short = ground arith

list_of_items :
    (q : Parser) × (parse
        (raising (wrapper list_impl))
        (parse_fuel items)
        reset
        items
        (ok (value [], tt))
      ≡ ok (finished q (ok (value (codes "one" ∷ codes "t\r\no" ∷ []), tt)) none))
    × Behind q items (codes ">1\r\n+x\r\n")
list_of_items = list-reply (codes "one") (codes "t\r\no" ∷ []) (codes ">1\r\n+x\r\n") items_short

-- `*2`, an error and a string, as a transaction replies.
general_aggregate-error_example :
    Takes general_aggregate
      (ok (value []))
      (make_node array 2 0 []
        ∷ make_node simple_error 1 1 (codes "ERR")
        ∷ make_node simple_string 1 1 (codes "OK")
        ∷ [])
      (crash error_access)
general_aggregate-error_example =
    general_aggregate-error (make_node array 2 0 [] ∷ []) (make_node simple_error 1 1 (codes "ERR"))
      (make_node simple_string 1 1 (codes "OK") ∷ []) (refl, tt) refl (refl, tt)

-- The reply to `HGETALL`, with a key twice.
abbrev fields : List (Bytes × Bytes)
fields = (codes "a", codes "1") ∷ (codes "b", codes "2") ∷ (codes "a", codes "3") ∷ []

map-Takes_example :
    (m : Pairs Bytes) × Takes
      (wrapper map_impl)
      (ok (value [], map_start))
      (make_node map 3 0 []
        ∷ element (codes "a")
        ∷ element (codes "1")
        ∷ element (codes "b")
        ∷ element (codes "2")
        ∷ element (codes "a")
        ∷ element (codes "3")
        ∷ [])
      (ok (value m, record { current = some (codes "a"); on_key = true }))
    × ((k : Bytes) → lookup k m ≡ last_value k none fields)
map-Takes_example = map-Takes 3 fields

a_is_three : last_value (codes "a") none fields ≡ some (codes "3")
unfolding bytes_eq
a_is_three = refl

-- Adapters that collect the nodes of an element.
abbrev pub collect : List Node → Node → Run (List Node) × Option Error
collect ns nd = (ok (ns ++ nd ∷ []), none)

-- The reply to `EXEC`: a status and a list of two.
abbrev list_nodes : List Node
list_nodes =
    make_node array 2 1 []
    ∷ make_node blob_string 1 2 (codes "x")
    ∷ make_node blob_string 1 2 (codes "y")
    ∷ []

abbrev status_nodes : List Node
status_nodes = make_node simple_string 1 1 (codes "OK") ∷ []

tuple_adapter-Takes_example :
    Takes
      (tuple_adapter collect)
      (ok (make_tuple_adapter ([] ∷ [] ∷ [])))
      (make_node array 2 0 [] ∷ (status_nodes ++ list_nodes))
      (ok (record { i = 2; aggregate_size = 0; adapters = status_nodes ∷ list_nodes ∷ [] }))
unfolding is_aggregate element_multiplicity
tuple_adapter-Takes_example =
    tuple_adapter-Takes collect (make_node array 2 0 []) ([] ∷ [] ∷ [])
      (status_nodes ∷ list_nodes ∷ []) (status_nodes ∷ list_nodes ∷ []) refl refl
      (
        (refl, inl (refl, refl)),
        (refl, refl),
        (
          (refl, inr (refl, refl, omega arith, (omega arith, (omega arith, tt)))),
          (refl, (refl, (refl, refl))),
          tt,
        ),
      )

-- An empty list in the place of the first element: its adapter takes the second one too.
empty_element :
    (tuple_adapter collect
      (tuple_adapter collect (ok (make_tuple_adapter ([] ∷ [] ∷ []))) (make_node array 0 1 [])).0
      (make_node simple_string 1 1 (codes "OK"))).0
    ≡ ok (record {
      i = 1;
      aggregate_size = 0;
      adapters = (make_node array 0 1 [] ∷ make_node simple_string 1 1 (codes "OK") ∷ []) ∷ [] ∷ [];
    })
unfolding tuple_adapter count_node is_aggregate element_multiplicity
empty_element = refl

-- A request with two responses, the first of which has arrived.
abbrev pub pair_request : Request
pair_request = record (make_request Request.default_config) { commands = 2; expected_responses = 2 }

abbrev pub nothing_pushed : List Node → Node → List Node × Option Failure
nothing_pushed ns nd = (ns, none)

abbrev pub unused : Connection (Run (List (List Node))) (List Node)
unused = record {
  read_buffer = [];
  write_buffer = [];
  reqs = [];
  parser = reset;
  on_push = false;
  cancel_run_called = false;
  usage = record {
    commands_sent = 0;
    bytes_sent = 0;
    responses_received = 0;
    pushes_received = 0;
    response_bytes_received = 0;
    push_bytes_received = 0;
  };
  is_open = true;
  receive_response = [];
  released = [];
  writer_wakes = 0;
  receive_cancels = 0;
}

abbrev pair : ReqInfo (Run (List (List Node)))
pair = make_info 1 pair_request (ok ([] ∷ [] ∷ []))

abbrev pair_history :
    History
      (raising_all (static_adapter collect))
      nothing_pushed
      unused
      (coalesce_requests (add_request_info pair unused)).0
pair_history =
    next (next (start unused) (adds unused 1 pair_request (ok ([] ∷ [] ∷ [])) (omega arith)))
      (coalesces (add_request_info pair unused))

History-Served_example :
    Served collect nothing_pushed ([] ∷ [] ∷ []) 0 (make_node simple_string 1 0 (codes "OK")) (
      info_adapter
        (raising_all (static_adapter collect))
        nothing_pushed
        (mark_staged pair)
        (ok ([] ∷ [] ∷ []))
        (make_node simple_string 1 0 (codes "OK")))
unfolding coalesce_requests add_request_info
History-Served_example =
    History-Served collect nothing_pushed pair_history (mark_staged pair) [] ([] ∷ [] ∷ [])
      (make_node simple_string 1 0 (codes "OK")) refl refl refl (omega arith)
