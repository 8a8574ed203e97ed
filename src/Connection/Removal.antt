-- ===== src/Connection/Removal.antt =====
-- `remove_request` (detail/connection_base.hpp) in the course of a connection.
use aedis.Prelude.{
  ℕ, ◌<◌, ◌≡◌, ◌≢◌, refl, ap, Option, List, [], ◌∷◌, ◌++◌, filter_by, rejected, Bool-cases, inl,
  inr, true, false, arith,
}
use aedis.Prelude.Run.{ok}
use aedis.Error.{Failure}
use aedis.Resp3.Node.{Node}
use aedis.Connection.{ReqInfo, Connection}
use aedis.Connection.Queue.{has_id, remove_request}
use aedis.Connection.Ownership.{count, Step-held}
use aedis.Connection.Steps.{removes}
use aedis.Connection.History.{History, additions, History-held}

module _ {R : Type 0} (i : ℕ) where
  none_found : (ris : List (ReqInfo R)) → count i ris ≡ 0 → filter_by (has_id i) ris ≡ []
  none_found [] h = refl
  none_found (ri ∷ ris) h = elim (Bool-cases (has_id i ri)) [
    | inl e ↦ absurd (let k = rw e at h in omega arith)
    | inr e ↦ rw e (none_found ris (let k = rw e at h in omega arith))
  ]

  one_found :
      (ris : List (ReqInfo R))
      → count i ris ≡ 1
      → (ri : ReqInfo R) × (filter_by (has_id i) ris ≡ ri ∷ [])
  one_found [] h = absurd (omega arith)
  one_found (ri ∷ ris) h = elim (Bool-cases (has_id i ri)) [
    | inl e ↦ (ri, rw e (ap (λ l. ri ∷ l) (none_found ris (let k = rw e at h in omega arith))))
    | inr e ↦ rw e (one_found ris (let k = rw e at h in omega arith))
  ]

  count-rejected : (ris : List (ReqInfo R)) → count i (rejected (has_id i) ris) ≡ 0
  count-rejected [] = refl
  count-rejected (ri ∷ ris) = elim (Bool-cases (has_id i ri)) [
    | inl e ↦ rw e (count-rejected ris)
    | inr e ↦ rw (e, e) (omega (arith, count-rejected ris))
  ]

  other_request : (j : ℕ) (ri : ReqInfo R) → j ≢ i → has_id i ri ≡ true → has_id j ri ≡ false
  other_request j ri ne e = ground arith

  count-others :
      (j : ℕ) (ris : List (ReqInfo R)) → j ≢ i → count j (rejected (has_id i) ris) ≡ count j ris
  count-others j [] ne = refl
  count-others j (ri ∷ ris) ne = elim (Bool-cases (has_id i ri)) [
    | inl e ↦ rw (e, other_request j ri ne e) (omega (arith, count-others j ris ne))
    | inr e ↦ rw e (omega (arith, count-others j ris ne))
  ]

module _ {R S : Type 0} (adapt : ℕ → R → Node → R × Option Failure)
    (receive_adapter : S → Node → S × Option Failure) where
  -- From a connection with nothing queued and nothing handed back, whatever was called in whatever
  -- order: where a request that was added once is in the queue, `remove_request` does not fault, so
  -- it neither erases `end()` nor leaves null pointers behind; the request is then in the queue no
  -- more and handed back once, and any other is in the queue as often as before.
  pub History-remove_request :
      (i j : ℕ) {c d : Connection R S} (h : History adapt receive_adapter c d)
      → c.reqs ≡ []
      → c.released ≡ []
      → additions adapt receive_adapter i h ≡ 1
      → 0 < count i d.reqs
      → j ≢ i
      → (e : Connection R S) × (remove_request i d ≡ ok e)
        × (count i e.reqs ≡ 0)
        × (count i e.released ≡ 1)
        × (count j e.reqs ≡ count j d.reqs)
  unfolding remove_request
  History-remove_request i j {c} {d} h q r once queued ne =
      let (held, partitioned) = History-held adapt receive_adapter i h q r in
      let (ri, found) = one_found i d.reqs (omega arith) in
      let e : Connection R S = record d {
        reqs = rejected (has_id i) d.reqs;
        released = d.released ++ filter_by (has_id i) d.reqs;
      } in
      let removed : remove_request i d ≡ ok e = rw found refl in
      let kept = Step-held adapt receive_adapter i (removes d e i removed) partitioned in
      let gone = count-rejected i d.reqs in
      (e, removed, gone, omega arith, count-others i j d.reqs ne)
