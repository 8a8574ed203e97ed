-- ===== src/Hello.antt =====
-- detail/runner.hpp and impl/runner.ipp: the request that greets the server, and `hello_op`.
pub mod Greeting
pub mod Examples
use aedis.Prelude.{
  Bool, true, false, not, ◌&&◌, ◌||◌, Option, none, some, List, [], ◌∷◌, ◌==◌, if◌then◌else◌,
}
use aedis.Prelude.Bytes.{Bytes, codes}
use aedis.Prelude.Run.{Run, ok, ◌>>=◌}
use aedis.Error.{Code}
use aedis.Resp3.Node.{Node}
use aedis.Resp3.Serialization.{ℤ, pos, negsuc, Value, text, integral}
use aedis.Request.{Request, clear, push}
use aedis.Adapter.{value, error, is_error}
use aedis.Response.{GenericResponse}
use aedis.Connection.{run, Connection}
use aedis.Connection.Queue.{cancel}
use aedis.Stages.{is_set_code, or_aborted}
use aedis.Config

-- `std::string::empty`
abbrev pub is_blank : Bytes → Bool
is_blank [] = true
is_blank (c ∷ s) = false

-- `cfg.database_index && cfg.database_index.value() != 0`
abbrev pub selects : Option ℤ → Bool
selects none = false
selects (some (pos n)) = not (n == 0)
selects (some (negsuc n)) = true

abbrev pub push_select : Option ℤ → Request → Run Request
push_select none req = ok req
push_select (some i) req =
    if selects (some i) then push req (codes "SELECT") (integral i ∷ []) else ok req

unfoldable pub push_hello : Config.Config → Request → Run Request
push_hello cfg req =
    (if not (is_blank cfg.username) && not (is_blank cfg.password) && not (is_blank cfg.clientname)
      then push req (codes "HELLO") (
          text (codes "3")
          ∷ text (codes "AUTH")
          ∷ text cfg.username
          ∷ text cfg.password
          ∷ text (codes "SETNAME")
          ∷ text cfg.clientname
          ∷ [])
      else if is_blank cfg.password && is_blank cfg.clientname
      then push req (codes "HELLO") (text (codes "3") ∷ [])
      else if is_blank cfg.clientname
      then push req (codes "HELLO")
          (text (codes "3") ∷ text (codes "AUTH") ∷ text cfg.username ∷ text cfg.password ∷ [])
      else push req (codes "HELLO")
          (text (codes "3") ∷ text (codes "SETNAME") ∷ text cfg.clientname ∷ []))
    >>= push_select cfg.database_index

-- `hello_resp_.value().clear()`, if it has a value.
abbrev pub clear_value : GenericResponse → GenericResponse
clear_value (value ns) = value []
clear_value (error t d) = error t d

-- What the runner keeps for the greeting: `hello_req_` and `hello_resp_`.
unfoldable pub add_hello :
    Config.Config → Request → GenericResponse → Run (Request × GenericResponse)
unfolding push_hello
add_hello cfg req resp = push_hello cfg (clear req) >>= λ q. ok (q, clear_value resp)

abbrev pub has_error_node : List Node → Bool
has_error_node [] = false
has_error_node (nd ∷ ns) = is_error nd.data_type || has_error_node ns

unfoldable pub has_error_in_response : GenericResponse → Bool
has_error_in_response (error t d) = true
has_error_in_response (value ns) = has_error_node ns

-- `hello_op` behind `async_exec`: the connection, and the code that it completes with.
unfoldable pub hello_done :
    {R S : Type 0}
    → Option Code
    → Bool
    → GenericResponse
    → Connection R S
    → Connection R S × Option Code
hello_done ec cancelled resp c =
    if is_set_code ec || has_error_in_response resp || cancelled
    then (cancel run c, some (or_aborted ec))
    else (c, none)
