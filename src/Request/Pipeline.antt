-- ===== src/Request/Pipeline.antt =====
-- A pipeline: many commands pushed on one request.
use aedis.Prelude.{
  ℕ, suc, ◌+◌, ◌≤◌, ◌<◌, ◌≡◌, refl, ap, ◌∙◌, Bool, false, ◌&&◌, ◌||◌, List, [], ◌∷◌, ◌++◌,
  append_assoc, append-nil, map, arith, length, word_mod, if◌then◌else◌,
}
use aedis.Prelude.Bytes.{Bytes, codes, bytes_eq}
use aedis.Prelude.Run.{Run, ok, ◌>>=◌}
use aedis.Resp3.Serialization.{Value}
use aedis.Resp3.Serialization.Wire.{command, printed}
use aedis.Request.{Request, has_response, check_cmd, push, clear}
use aedis.Request.Wire.{push-check_cmd}

-- A user's calls of `push`, in order.
unfoldable pub push_all : Request → List (Bytes × List Value) → Run Request
push_all r [] = ok r
push_all r ((cmd, args) ∷ cs) = push r cmd args >>= λ q. push_all q cs

-- The bytes of the commands.
abbrev pub wire : List (Bytes × List Value) → Bytes
wire [] = []
wire ((cmd, args) ∷ cs) = command (cmd ∷ map printed args) [] ++ wire cs

-- The commands that the server answers.
abbrev pub answered : List (Bytes × List Value) → ℕ
answered [] = 0
answered ((cmd, args) ∷ cs) = (if has_response cmd then 0 else 1) + answered cs

abbrev pub says_hello : List (Bytes × List Value) → Bool
says_hello [] = false
says_hello ((cmd, args) ∷ cs) = bytes_eq cmd (codes "HELLO") || says_hello cs

pub answered-le-length : (cs : List (Bytes × List Value)) → answered cs ≤ length cs
answered-le-length [] = omega arith
answered-le-length ((cmd, args) ∷ cs) = ground (arith, answered-le-length cs)

abbrev pub extended : Request → List (Bytes × List Value) → Request
extended r cs = record r {
  payload = r.payload ++ wire cs;
  commands = r.commands + length cs;
  expected_responses = r.expected_responses + answered cs;
  has_hello_priority = if says_hello cs then r.cfg.hello_with_priority else r.has_hello_priority;
}

-- One call, and the calls behind it.
check_cmd-extended :
    (r : Request) (x : Bytes) (cmd : Bytes) (args : List Value) (cs : List (Bytes × List Value))
    → x ≡ command (cmd ∷ map printed args) []
    → r.commands + suc (length cs) < word_mod
    → r.expected_responses ≤ r.commands
    → extended (check_cmd (record r { payload = r.payload ++ x }) cmd) cs
      ≡ extended r ((cmd, args) ∷ cs)
unfolding check_cmd
check_cmd-extended r x cmd args cs e bound le = ground (arith, append_assoc r.payload x (wire cs))

push_all-extended :
    (r : Request) (cs : List (Bytes × List Value))
    → r.commands + length cs < word_mod
    → r.expected_responses ≤ r.commands
    → push_all r cs ≡ ok (extended r cs)
unfolding push_all
push_all-extended r [] bound le = ground (arith, append-nil r.payload)
push_all-extended r ((cmd, args) ∷ cs) bound le =
    let q : Request =
      check_cmd (record r { payload = r.payload ++ command (cmd ∷ map printed args) [] }) cmd in
    rw
      (
        push-check_cmd r cmd args,
        push_all-extended q cs (unfold check_cmd in ground arith)
            (unfold check_cmd in ground arith),
      )
      (ap ok (check_cmd-extended r _ cmd args cs refl bound le))

-- A cleared request that commands are pushed on, with fewer than 2^64 of them, holds their bytes in
-- order, counts them all, expects one response for each but the subscriptions, and has the
-- configured `HELLO` priority if and only if one of them is a `HELLO`.
pub push_all-clear :
    (r : Request) (cs : List (Bytes × List Value))
    → length cs < word_mod
    → push_all (clear r) cs
      ≡ ok (record {
        cfg = r.cfg;
        payload = wire cs;
        commands = length cs;
        expected_responses = answered cs;
        has_hello_priority = says_hello cs && r.cfg.hello_with_priority;
      })
unfolding clear
push_all-clear r cs bound =
    push_all-extended (clear r) cs (omega arith) (omega arith) ∙ ap ok (ground arith)
