-- ===== src/Hello/Examples.antt =====
-- The greeting of a user with a password and a database.
use aedis.Prelude.{◌≡◌, true, some, [], ◌∷◌}
use aedis.Prelude.Bytes.{codes}
use aedis.Prelude.Run.{ok}
use aedis.Resp3.Serialization.{pos, text, integral}
use aedis.Request.{Request, make_request}
use aedis.Request
use aedis.Request.Pipeline.{wire}
use aedis.Adapter.{value}
use aedis.Config
use aedis.Hello.{add_hello}
use aedis.Hello.Greeting.{add_hello-greeting}

abbrev secured : Config.Config
secured = record Config.default_config { password = codes "secret"; database_index = some (pos 3) }

abbrev blank_request : Request
blank_request = make_request Request.default_config

add_hello-greeting_example :
    add_hello secured blank_request (value [])
    ≡ ok (
      record {
        cfg = Request.default_config;
        payload = wire (
            (
              codes "HELLO",
              text (codes "3")
                  ∷ text (codes "AUTH")
                  ∷ text (codes "default")
                  ∷ text (codes "secret")
                  ∷ text (codes "SETNAME")
                  ∷ text (codes "Boost.Redis")
                  ∷ [],
            )
            ∷ (codes "SELECT", integral (pos 3) ∷ [])
            ∷ []);
        commands = 2;
        expected_responses = 2;
        has_hello_priority = true;
      },
      value [],
    )
add_hello-greeting_example = add_hello-greeting secured blank_request (value [])
