-- ===== src/Connection/Fifo.antt =====
-- What the queue of a connection promises, and the code's queue seen that way.
pub mod Queues
pub mod Refinement
use aedis.Prelude.{
  refl, sym, subst, ℕ, suc, ◌<◌, ◌≡◌, Bool, not, List, [], ◌∷◌, ◌++◌, map, filter_by, ◌==◌,
  if◌then◌else◌,
}
use aedis.Connection.{ReqInfo, Connection}
use aedis.Connection.Queue.{is_waiting, is_sent}

-- A request, and how many responses it has still to come.
abbrev pub Ticket : Type 0
Ticket = ℕ × ℕ

-- Some elements of a list, in its order.
pub data Sublist {A : Type 0} : List A → List A → Type 0 where
  none_left : Sublist [] []
  kept : (x : A) {xs ys : List A} → Sublist xs ys → Sublist (x ∷ xs) (x ∷ ys)
  left : (x : A) {xs ys : List A} → Sublist xs ys → Sublist xs (x ∷ ys)

-- What is asked of the queue: a request is added, with priority or without; all that wait are sent;
-- requests that were sent and expect nothing leave; the request with this number leaves; all that wait
-- leave; the connection is lost; a part of a response arrives.
pub data Call : Type 0 where
  adding : Bool → Ticket → Call
  sending releasing : Call
  withdrawing : ℕ → Call
  clearing losing answering : Call

abbrev pub Queue : Type 0
Queue = List Ticket × List Ticket

abbrev pub has_number : ℕ → Ticket → Bool
has_number i t = t.0 == i

abbrev pub without : ℕ → List Ticket → List Ticket
without i ts = filter_by (λ t. not (has_number i t)) ts

-- The front of what was sent, by one response: nothing changes, a response less is to come, or the
-- last one finishes the request.
pub data Answered : Queue → Queue → Type 0 where
  unchanged : (q : Queue) → Answered q q
  answers : (i n : ℕ) (s p : List Ticket) → 0 < n → Answered ((i, suc n) ∷ s, p) ((i, n) ∷ s, p)
  finishes : (i : ℕ) (s p : List Ticket) → Answered ((i, 1) ∷ s, p) (s, p)

-- What each call may do to the requests that were sent and to those that wait: one joins at the back
-- of those that wait, or with priority at their front, and never before one that was sent; all that
-- wait are sent behind those that were; and behind a lost connection some of all wait, in the same
-- order. Nothing changes places.
abbrev pub Fifo : Call → Queue → Queue → Type 0
Fifo (adding priority t) q r = r ≡ (q.0, if priority then t ∷ q.1 else q.1 ++ t ∷ [])
Fifo sending q r = r ≡ (q.0 ++ q.1, [])
Fifo releasing q r = Sublist r.0 q.0 × (r.1 ≡ q.1)
Fifo (withdrawing i) q r = r ≡ (without i q.0, without i q.1)
Fifo clearing q r = r ≡ (q.0, [])
Fifo losing q r = (r.0 ≡ []) × Sublist r.1 (q.0 ++ q.1)
Fifo answering q r = Answered q r

-- The calls in turn.
pub data Fifos : List Call → Queue → Queue → Type 0 where
  stays : (q : Queue) → Fifos [] q q
  goes :
      (k : Call) (q m : Queue) {ks : List Call} {r : Queue}
      → Fifo k q m
      → Fifos ks m r
      → Fifos (k ∷ ks) q r

pub one : (k : Call) (q r : Queue) → Fifo k q r → Fifos (k ∷ []) q r
one k q r f = goes k q r f (stays r)

pub between : (k : Call) {q q' r r' : Queue} → q ≡ q' → r ≡ r' → Fifo k q' r' → Fifo k q r
between k {q} {q'} {r} {r'} e f h =
    subst (λ x. Fifo k x r) (sym e) (subst (λ y. Fifo k q' y) (sym f) h)

pub Fifos-append :
    {ks ls : List Call} {q m r : Queue} → Fifos ks q m → Fifos ls m r → Fifos (ks ++ ls) q r
Fifos-append (stays q) f = f
Fifos-append (goes k q n step rest) f = goes k q n step (Fifos-append rest f)

module _ {R : Type 0} where
  abbrev pub ticket : ReqInfo R → Ticket
  ticket ri = (ri.id, ri.expected_responses)

  abbrev pub abstract_queue : List (ReqInfo R) → Queue
  abstract_queue ris = (map ticket (filter_by is_sent ris), map ticket (filter_by is_waiting ris))
