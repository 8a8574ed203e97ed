-- ===== src/Connection/History.antt =====
-- What holds of a connection after any sequence of calls, from an empty queue.
use aedis.Prelude.{ℕ, ◌+◌, ◌≡◌, ap, Option, [], arith}
use aedis.Error.{Failure}
use aedis.Resp3.Node.{Node}
use aedis.Connection.{Connection}
use aedis.Connection.Queue.Order.{Partitioned}
use aedis.Connection.Steps.{Step, Step-Partitioned}
use aedis.Connection.Ownership.{count, held, handed_over, Step-held}

module _ {R S : Type 0} (adapt : ℕ → R → Node → R × Option Failure)
    (receive_adapter : S → Node → S × Option Failure) where
  pub data History : Connection R S → Connection R S → Type 0 where
    start : (c : Connection R S) → History c c
    next : {c d e : Connection R S} → History c d → Step adapt receive_adapter d e → History c e

  -- How often the request was handed to the connection.
  abbrev pub additions : ℕ → {c d : Connection R S} → History c d → ℕ
  additions i (start c) = 0
  additions i (next h st) = handed_over adapt receive_adapter i st + additions i h

  pub steps-Partitioned :
      {c d : Connection R S} → History c d → Partitioned c.reqs → Partitioned d.reqs
  steps-Partitioned (start c) p = p
  steps-Partitioned (next h st) p =
      Step-Partitioned adapt receive_adapter st (steps-Partitioned h p)

  steps-held :
      (i : ℕ) {c d : Connection R S} (h : History c d)
      → Partitioned c.reqs
      → held i d ≡ additions i h + held i c
  steps-held i (start c) p = omega arith
  steps-held i (next h st) p =
      omega (arith, Step-held adapt receive_adapter i st (steps-Partitioned h p), steps-held i h p)

  -- From a connection with nothing queued and nothing handed back, whatever is called in whatever
  -- order, the queue is partitioned, and a request is in the queue or among those handed back
  -- exactly as often as it was added.
  pub History-held :
      (i : ℕ) {c d : Connection R S} (h : History c d)
      → c.reqs ≡ []
      → c.released ≡ []
      → (count i d.reqs + count i d.released ≡ additions i h) × Partitioned d.reqs
  History-held i {c} {d} h q r =
      let p : Partitioned c.reqs = rw q tt in
      let none_queued : count i c.reqs ≡ 0 = ap (count i) q in
      let none_released : count i c.released ≡ 0 = ap (count i) r in
      (omega (arith, steps-held i h p), steps-Partitioned h p)
