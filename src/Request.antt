-- ===== src/Request.antt =====
-- request.hpp and impl/request.ipp: a pipeline of commands and its counters.
pub mod Wire
pub mod Pipeline
pub mod Tuples
pub mod Examples
use aedis.Prelude.{
  ℕ, zero, suc, ◌+◌, ◌*◌, Bool, true, false, not, List, [], ◌∷◌, length, word, if◌then◌else◌,
}
use aedis.Prelude.Bytes.{Bytes, codes, bytes_eq}
use aedis.Prelude.Run.{Run, ok, ◌>>=◌}
use aedis.Resp3.Types.{array}
use aedis.Resp3.Serialization.{Value, text, Element, boost_redis_to_bulk, add_header, add_tuple}

pub record Config : Type 0 where
  pub cancel_on_connection_lost : Bool
  pub cancel_if_not_connected : Bool
  pub cancel_if_unresponded : Bool
  pub hello_with_priority : Bool

-- `config{true, false, true, true}`
abbrev pub default_config : Config
default_config = record {
  cancel_on_connection_lost = true;
  cancel_if_not_connected = false;
  cancel_if_unresponded = true;
  hello_with_priority = true;
}

pub record Request : Type 0 where
  pub cfg : Config
  pub payload : Bytes
  pub commands : ℕ
  pub expected_responses : ℕ
  pub has_hello_priority : Bool

-- The constructor.
abbrev pub make_request : Config → Request
make_request c = record {
  cfg = c;
  payload = [];
  commands = 0;
  expected_responses = 0;
  has_hello_priority = false;
}

unfoldable pub clear : Request → Request
clear r = record r {
  payload = [];
  commands = 0;
  expected_responses = 0;
  has_hello_priority = false;
}

-- Despite its name it is true of the commands that have no response of their own.
unfoldable pub has_response : Bytes → Bool
unfolding bytes_eq
has_response cmd =
    if bytes_eq cmd (codes "SUBSCRIBE")
    then true
    else if bytes_eq cmd (codes "PSUBSCRIBE")
    then true
    else if bytes_eq cmd (codes "UNSUBSCRIBE")
    then true
    else false

unfoldable pub check_cmd : Request → Bytes → Request
unfolding has_response
check_cmd r cmd =
    let n = word (r.commands + 1) in
    let m =
      if not (has_response cmd) then word (r.expected_responses + 1) else r.expected_responses in
    let hello =
      if bytes_eq cmd (codes "HELLO") then r.cfg.hello_with_priority else r.has_hello_priority in
    record r { commands = n; expected_responses = m; has_hello_priority = hello }

unfoldable pub push : Request → Bytes → List Value → Run Request
unfolding check_cmd
push r cmd args = do
  p ← add_header r.payload array (1 + length args)
  p ← boost_redis_to_bulk p cmd
  p ← add_tuple p args
  ok (check_cmd (record r { payload = p }) cmd)

module _ {T : Type 0} ⦃e : Element T⦄ where
  -- `for (; begin != end; ++begin) resp3::add_bulk(payload_, *begin);`
  unfoldable pub add_each : Bytes → List T → Run Bytes
  add_each payload [] = ok payload
  add_each payload (x ∷ xs) = e.add_bulk payload x >>= λ p. add_each p xs

  -- With a key. The overload that takes a range calls this one with its iterators.
  unfoldable pub push_range_key : Request → Bytes → Bytes → List T → Run Request
  unfolding add_each check_cmd
  push_range_key r cmd key [] = ok r
  push_range_key r cmd key (x ∷ xs) = do
    p ← add_header r.payload array (word (2 + e.size * length (x ∷ xs)))
    p ← boost_redis_to_bulk p cmd
    p ← boost_redis_to_bulk p key
    p ← add_each p (x ∷ xs)
    ok (check_cmd (record r { payload = p }) cmd)

  -- With no key.
  unfoldable pub push_range : Request → Bytes → List T → Run Request
  unfolding add_each check_cmd
  push_range r cmd [] = ok r
  push_range r cmd (x ∷ xs) = do
    p ← add_header r.payload array (word (1 + e.size * length (x ∷ xs)))
    p ← boost_redis_to_bulk p cmd
    p ← add_each p (x ∷ xs)
    ok (check_cmd (record r { payload = p }) cmd)
