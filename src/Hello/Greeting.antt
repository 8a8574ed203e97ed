-- ===== src/Hello/Greeting.antt =====
-- The request of `add_hello`, against a list of the commands that it should hold.
use aedis.Prelude.{
  ◌≤◌, ◌<◌, ◌≡◌, refl, ◌∙◌, Bool, not, ◌&&◌, ◌||◌, Option, none, some, List, [], ◌∷◌, ◌++◌,
  if◌then◌else◌, arith, length, word_mod, Bool-cases, inl, inr,
}
use aedis.Prelude.Bytes.{Bytes, codes, bytes_eq}
use aedis.Prelude.Run.{ok, ◌>>=◌}
use aedis.Resp3.Serialization.{ℤ, Value, text, integral}
use aedis.Request.{Request, clear, push, has_response}
use aedis.Request.Wire.{push-check_cmd}
use aedis.Request.Pipeline.{push_all, push_all-clear, wire, answered}
use aedis.Response.{GenericResponse}
use aedis.Config
use aedis.Hello.{is_blank, selects, push_select, push_hello, add_hello, clear_value}

-- Credentials are sent with a password, but not for an empty user's name next to a client's name.
abbrev pub sends_auth : Config.Config → Bool
sends_auth cfg =
    not (is_blank cfg.password) && (not (is_blank cfg.username) || is_blank cfg.clientname)

abbrev pub auth_args : Config.Config → List Value
auth_args cfg =
    if sends_auth cfg then text (codes "AUTH") ∷ text cfg.username ∷ text cfg.password ∷ [] else []

abbrev pub name_args : Config.Config → List Value
name_args cfg =
    if is_blank cfg.clientname then [] else text (codes "SETNAME") ∷ text cfg.clientname ∷ []

abbrev pub select_commands : Option ℤ → List (Bytes × List Value)
select_commands none = []
select_commands (some i) = if selects (some i) then (codes "SELECT", integral i ∷ []) ∷ [] else []

-- One `HELLO`, and a `SELECT` for a database other than 0.
abbrev pub greeting : Config.Config → List (Bytes × List Value)
greeting cfg =
    (codes "HELLO", text (codes "3") ∷ (auth_args cfg ++ name_args cfg))
    ∷ select_commands cfg.database_index

select-push_all : (i : Option ℤ) (r : Request) → push_select i r ≡ push_all r (select_commands i)
unfolding push_all
select-push_all none r = refl
select-push_all (some i) r = elim (Bool-cases (selects (some i))) [
  | inl e ↦ rw e (rw (push-check_cmd r (codes "SELECT") (integral i ∷ [])) refl)
  | inr e ↦ rw e refl
]

abbrev hello_args : Config.Config → List Value
hello_args cfg = text (codes "3") ∷ (auth_args cfg ++ name_args cfg)

push_hello-push :
    (cfg : Config.Config) (r : Request)
    → push_hello cfg r
      ≡ (push r (codes "HELLO") (hello_args cfg) >>= push_select cfg.database_index)
unfolding push_hello
push_hello-push cfg r = elim (Bool-cases (is_blank cfg.clientname)) [
  | inl c ↦ elim (Bool-cases (is_blank cfg.password)) [
    | inl p ↦ elim (Bool-cases (is_blank cfg.username)) [
      | inl u ↦ rw (u, p, c) refl
      | inr u ↦ rw (u, p, c) refl
    ]
    | inr p ↦ elim (Bool-cases (is_blank cfg.username)) [
      | inl u ↦ rw (u, p, c) refl
      | inr u ↦ rw (u, p, c) refl
    ]
  ]
  | inr c ↦ elim (Bool-cases (is_blank cfg.password)) [
    | inl p ↦ elim (Bool-cases (is_blank cfg.username)) [
      | inl u ↦ rw (u, p, c) refl
      | inr u ↦ rw (u, p, c) refl
    ]
    | inr p ↦ elim (Bool-cases (is_blank cfg.username)) [
      | inl u ↦ rw (u, p, c) refl
      | inr u ↦ rw (u, p, c) refl
    ]
  ]
]

push_hello-push_all :
    (cfg : Config.Config) (r : Request) → push_hello cfg r ≡ push_all r (greeting cfg)
unfolding push_all
push_hello-push_all cfg r =
    push_hello-push cfg r
    ∙ rw (push-check_cmd r (codes "HELLO") (hello_args cfg)) (select-push_all cfg.database_index _)

select-answered :
    (i : Option ℤ)
    → (length (select_commands i) ≤ 1) × (answered (select_commands i) ≡ length (select_commands i))
unfolding has_response bytes_eq
select-answered none = (omega arith, refl)
select-answered (some i) = elim (Bool-cases (selects (some i))) [
  | inl e ↦ rw e (omega arith, omega arith)
  | inr e ↦ rw e (omega arith, refl)
]

answered-greeting : (cfg : Config.Config) → answered (greeting cfg) ≡ length (greeting cfg)
unfolding has_response bytes_eq
answered-greeting cfg = omega (arith, (select-answered cfg.database_index).1)

-- `add_hello` makes a request of exactly these commands: `HELLO 3`, with `AUTH` where a password is
-- configured and a user's name too or no client's name, with `SETNAME` where a client's name is
-- configured, and then `SELECT` where a database other than 0 is configured; a response is expected
-- for each, the request has the configured priority, and a response with a value is emptied.
pub add_hello-greeting :
    (cfg : Config.Config) (req : Request) (resp : GenericResponse)
    → add_hello cfg req resp
      ≡ ok (
        record {
          cfg = req.cfg;
          payload = wire (greeting cfg);
          commands = length (greeting cfg);
          expected_responses = length (greeting cfg);
          has_hello_priority = req.cfg.hello_with_priority;
        },
        clear_value resp,
      )
unfolding add_hello bytes_eq
add_hello-greeting cfg req resp =
    let few : length (greeting cfg) < word_mod =
      omega (arith, (select-answered cfg.database_index).0) in
    rw
      (
        push_hello-push_all cfg (clear req),
        push_all-clear req (greeting cfg) few,
        answered-greeting cfg,
      )
      refl
