-- ===== src/Connection/Answered.antt =====
-- Requests and the server's replies to them, in order, from one buffer.
pub mod Replies
pub mod Pipeline
pub mod Midway
pub mod Begun
pub mod Paused
pub mod Arrival
pub mod Chunks
pub mod Calls
pub mod Turn
pub mod Executed
pub mod Examples
use aedis.Prelude.{
  ℕ, zero, suc, ◌+◌, ◌<◌, ◌≡◌, false, Option, none, List, [], ◌∷◌, ◌++◌, length, All, word,
}
use aedis.Prelude.Bytes.{Bytes}
use aedis.Error.{Failure, Error}
use aedis.Resp3.Node.{Node}
use aedis.Resp3.Parser.{reset}
use aedis.Resp3.Parser.Trace.{Takes}
use aedis.Resp3.Reply.{Reply, type_of, print, nodes, Fits}
use aedis.Connection.{ReqInfo, Usage, Connection}
use aedis.Connection.Queue.{is_waiting, proceed}
use aedis.Connection.Read.{resp, is_push_type, count_message}

-- Any reply but a server push.
abbrev pub IsResponse : Reply → Type 0
IsResponse r = Fits 0 r × (is_push_type (type_of r) ≡ false)

abbrev pub size : Reply → ℕ
size r = length (print r [])

abbrev pub print_replies : List Reply → Bytes → Bytes
print_replies [] rest = rest
print_replies (r ∷ rs) rest = print r (print_replies rs rest)

module _ {R S : Type 0} where
  -- Between two messages, with this queue and this data to read.
  abbrev pub facing : Connection R S → List (ReqInfo R) → Bytes → Connection R S
  facing c reqs buffer = record c {
    reqs = reqs;
    read_buffer = buffer;
    parser = reset;
    on_push = false;
  }

module _ {R E : Type 0} (adapt : ℕ → R → Node → R × Option E) where
  -- The adapter takes the nodes of each reply in turn, from the command at `i` on.
  abbrev pub Fills : ℕ → R → List Reply → R → Type 0
  Fills i a [] b = a ≡ b
  Fills i a (r ∷ rs) b = (m : R) × Takes (adapt i) a (nodes 0 r) m × Fills (i + 1) m rs b

  -- A request, the server's replies to its commands, and what they make of its response object.
  pub record Exchange : Type 0 where
    pub info : ReqInfo R
    pub replies : List Reply
    pub filled : R

  -- The request was sent, no response has been read, and there is one for each that it expects.
  pub record IsExchange (x : Exchange) : Type 0 where
    pub sent : is_waiting x.info ≡ false
    pub expected : x.info.expected_responses ≡ length x.replies
    pub fresh : x.info.req.expected_responses ≡ length x.replies
    pub several : 0 < length x.replies
    pub responses : All IsResponse x.replies
    pub fills : Fills 0 x.info.resp x.replies x.filled

abbrev pub bytes_read : ℕ → List Reply → ℕ
bytes_read n [] = n
bytes_read n (r ∷ rs) = bytes_read (word (n + size r)) rs

abbrev pub usage_after : Usage → List Reply → Usage
usage_after u [] = u
usage_after u (r ∷ rs) = usage_after (count_message resp (size r) u) rs

-- The request as it leaves the queue, behind all its replies.
abbrev pub answered : {R : Type 0} → ReqInfo R → List Reply → R → ReqInfo R
answered ri rs b =
    proceed (record ri { resp = b; expected_responses = 0; read_size = bytes_read ri.read_size rs })
