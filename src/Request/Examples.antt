-- ===== src/Request/Examples.antt =====
-- Requests at concrete commands.
use aedis.Prelude.{◌+◌, ◌*◌, ◌≡◌, refl, true, false, List, [], ◌∷◌, arith}
use aedis.Prelude.Bytes.{Bytes, codes, to_string}
use aedis.Prelude.Run.{ok}
use aedis.Resp3.Serialization.{
  Value, text, integral, pos, negsuc, value_element, pair_element, tuple_element,
}
use aedis.Resp3.Serialization.Wire.{command, counted, bulks}
use aedis.Request.{
  Request, default_config, make_request, clear, check_cmd, push, push_range, push_range_key,
  has_response,
}
use aedis.Request.Wire.{
  push-command, push_range-command, push_range_key-command, value_Announces, pair_Announces,
}
use aedis.Request.Tuples.{push_range-tuples}
use aedis.Request.Pipeline.{push_all, wire, push_all-clear}

abbrev fresh : Request
fresh = make_request default_config

-- `HELLO 3`, `SUBSCRIBE news` and `PING`.
abbrev session : List (Bytes × List Value)
session =
    (codes "HELLO", integral (pos 3) ∷ [])
    ∷ (codes "SUBSCRIBE", text (codes "news") ∷ [])
    ∷ (codes "PING", [])
    ∷ []

push_all-clear_example :
    push_all (clear fresh) session
    ≡ ok (record {
      cfg = default_config;
      payload = wire session;
      commands = 3;
      expected_responses = 2;
      has_hello_priority = true;
    })
unfolding has_response
push_all-clear_example = push_all-clear fresh session (ground arith)

push-command_example :
    push fresh (codes "SET") (text (codes "n") ∷ integral (negsuc 4) ∷ [])
    ≡ ok (record {
      cfg = default_config;
      payload = command (codes "SET" ∷ codes "n" ∷ codes "-5" ∷ []) [];
      commands = 1;
      expected_responses = 1;
      has_hello_priority = false;
    })
unfolding to_string has_response
push-command_example =
    push-command fresh (codes "SET") (text (codes "n") ∷ integral (negsuc 4) ∷ [])

push_range-command_example :
    push_range fresh (codes "DEL") (text (codes "a") ∷ text (codes "b") ∷ [])
    ≡ ok (
        check_cmd
          (record fresh { payload = command (codes "DEL" ∷ codes "a" ∷ codes "b" ∷ []) [] })
          (codes "DEL"))
unfolding value_Announces to_string
push_range-command_example =
    push_range-command value_Announces fresh (codes "DEL") (text (codes "a"))
      (text (codes "b") ∷ []) (ground arith)

hset_fields :
    push_range_key {T = Value × Value} fresh
      (codes "HSET")
      (codes "h")
      ((text (codes "a"), text (codes "1")) ∷ [])
    ≡ ok (
        check_cmd
          (record fresh {
            payload = command (codes "HSET" ∷ codes "h" ∷ codes "a" ∷ codes "1" ∷ []) [];
          })
          (codes "HSET"))
unfolding pair_Announces to_string
hset_fields =
    push_range_key-command pair_Announces fresh (codes "HSET") (codes "h")
      (text (codes "a"), text (codes "1")) [] (ground arith)

-- Two tuples of two fields: five strings behind a header for three.
push_range-tuples_example :
    (push_range fresh (codes "MSET") (
        (text (codes "a") ∷ integral (pos 1) ∷ [])
        ∷ (text (codes "b") ∷ integral (pos 2) ∷ [])
        ∷ [])
      ≡ ok (
          check_cmd
            (record fresh {
              payload =
                  b'*'
                  ∷ counted 3 (
                      bulks (codes "MSET" ∷ codes "a" ∷ codes "1" ∷ codes "b" ∷ codes "2" ∷ []) []);
            })
            (codes "MSET")))
    × (5 ≡ 1 + 2 * 2)
unfolding to_string
push_range-tuples_example =
    push_range-tuples fresh (codes "MSET") 2 (text (codes "a") ∷ integral (pos 1) ∷ [])
      ((text (codes "b") ∷ integral (pos 2) ∷ []) ∷ []) (ground arith) (refl, (refl, tt))
