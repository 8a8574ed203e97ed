-- ===== src/Adapter/Served.antt =====
-- The object of a response that the connection writes to, and its neighbours.
use aedis.Prelude.{
  ℕ, ◌≤◌, ◌<◌, ◌≡◌, refl, false, Option, some, List, [], ◌∷◌, arith, ◌==◌, length, get_elem?,
  get_or, get_elem?-get_or, sub_word, lt→ltb,
}
use aedis.Prelude.Run.{Run, ok, at-some}
use aedis.Error.{Failure, Error}
use aedis.Resp3.Node.{Node}
use aedis.Connection.{ReqInfo, Connection}
use aedis.Connection.Read.{info_adapter}
use aedis.Connection.History.{History}
use aedis.Connection.Bounds.{History-index}
use aedis.Adapter.{reported, raising_all}
use aedis.Adapter.Traits.{place, static_adapter, static_response_size}

module _ {E S : Type 0} (visit : E → Node → Run E × Option Error)
    (receive_adapter : S → Node → S × Option Failure) where
  -- The adapter at `i` takes the node, and it alone.
  abbrev pub Served : List E → ℕ → Node → Run (List E) × Option Failure → Type 0
  Served es i nd r =
      (e : E) × (get_elem? es i ≡ some e)
      × (r ≡ reported (place es i (visit e nd).0, (visit e nd).1))

  static_adapter-Served :
      (es : List E) (i : ℕ) (nd : Node)
      → i < length es
      → Served es i nd (raising_all (static_adapter visit) i (ok es) nd)
  unfolding static_adapter
  static_adapter-Served [] i nd h = elim h [ ]
  static_adapter-Served (x ∷ xs) i nd h =
      let es = x ∷ xs in
      let e = get_or es i x in
      let found = get_elem?-get_or es i x h in
      (e, found, rw (lt→ltb i (length es) h, at-some es i e found) refl)

  -- From an empty queue, whatever is called in whatever order: where the front request has a
  -- response to come and its object has at least as many adapters as the request expects responses,
  -- as async_exec asserts, each node of the response goes to the adapter at the index of the
  -- command and changes no other: neither the assertion on the index nor `at` fails.
  pub History-Served :
      {c d : Connection (Run (List E)) S}
      (h : History (raising_all (static_adapter visit)) receive_adapter c d)
      (ri : ReqInfo (Run (List E))) (ris : List (ReqInfo (Run (List E)))) (es : List E) (nd : Node)
      → c.reqs ≡ []
      → d.reqs ≡ ri ∷ ris
      → (ri.expected_responses == 0) ≡ false
      → ri.req.expected_responses ≤ static_response_size visit es
      → Served es
          (sub_word ri.req.expected_responses ri.expected_responses)
          nd
          (info_adapter (raising_all (static_adapter visit)) receive_adapter ri (ok es) nd)
  History-Served h ri ris es nd q q' due enough =
      let below =
        History-index (raising_all (static_adapter visit)) receive_adapter h ri ris q q' due in
      static_adapter-Served es (sub_word ri.req.expected_responses ri.expected_responses) nd
        (omega (arith, below))
