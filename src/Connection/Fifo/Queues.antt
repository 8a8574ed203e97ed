-- ===== src/Connection/Fifo/Queues.antt =====
-- What the operations on the queue are for the abstract one.
use aedis.Prelude.{
  if◌then◌else◌, subst, ℕ, ◌≡◌, refl, sym, ap, ◌∙◌, Bool, true, false, rejected, List, [], ◌∷◌,
  ◌++◌, All, map, arith, filter_by, take_while, drop_while, Bool-cases, inl, inr, append_assoc,
  append-nil,
}
use aedis.Connection.{ReqInfo}
use aedis.Connection.Queue.{
  is_waiting, is_sent, is_staged_push, has_id, mark_waiting, mark_staged, mark_if_staged, survives,
  enqueue,
}
use aedis.Connection.Queue.Order.{
  IsSent, IsWaiting, All-append, Partitioned, enqueue-place, take_while-append-drop_while,
  take_while-Sent, drop_while-Waiting, map_staged-Sent, map-mark_waiting, mark_if_staged-waiting,
}
use aedis.Connection.Fifo.{
  Sublist, none_left, kept, left, Queue, adding, sending, releasing, withdrawing, clearing, losing,
  without, Fifo, between, ticket, abstract_queue,
}

module _ {A : Type 0} where
  filter_by-append :
      (p : A → Bool) (xs ys : List A) → filter_by p (xs ++ ys) ≡ filter_by p xs ++ filter_by p ys
  filter_by-append p [] ys = refl
  filter_by-append p (x ∷ xs) ys = elim (Bool-cases (p x)) [
    | inl e ↦ rw e (ap (◌∷◌ x) (filter_by-append p xs ys))
    | inr e ↦ rw e (filter_by-append p xs ys)
  ]

  map-append : {B : Type 0} (f : A → B) (xs ys : List A) → map f (xs ++ ys) ≡ map f xs ++ map f ys
  map-append f [] ys = refl
  map-append f (x ∷ xs) ys = ap (◌∷◌ (f x)) (map-append f xs ys)

if_place :
    {A B C : Type 0} (b : Bool) (f : A → C) (g : B → C) (x y : A) (x' y' : B)
    → f x ≡ g x'
    → f y ≡ g y'
    → f (if b then x else y) ≡ g (if b then x' else y')
if_place true f g x y x' y' e h = e
if_place false f g x y x' y' e h = h

module _ {R : Type 0} where
  staged_push_sent : (ri : ReqInfo R) → is_staged_push ri ≡ true → is_waiting ri ≡ false
  staged_push_sent ri e = elim (Bool-cases (is_waiting ri)) [
    | inl w ↦ absurd (ground arith)
    | inr w ↦ w
  ]

  -- The tickets that are left, of those that the abstraction keeps.
  without-tickets :
      (i : ℕ) (p : ReqInfo R → Bool) (ris : List (ReqInfo R))
      → map ticket (filter_by p (rejected (has_id i) ris))
        ≡ without i (map ticket (filter_by p ris))
  without-tickets i p [] = refl
  without-tickets i p (ri ∷ ris) = elim (Bool-cases (has_id i ri)) [
    | inl e ↦ rw e (elim (Bool-cases (p ri)) [
      | inl f ↦ rw f (rw e (without-tickets i p ris))
      | inr f ↦ rw f (without-tickets i p ris)
    ])
    | inr e ↦ rw e (elim (Bool-cases (p ri)) [
      | inl f ↦ rw f (rw e (ap (◌∷◌ (ticket ri)) (without-tickets i p ris)))
      | inr f ↦ rw f (without-tickets i p ris)
    ])
  ]

  pub withdraw-Fifo :
      (i : ℕ) (ris : List (ReqInfo R))
      → Fifo (withdrawing i) (abstract_queue ris) (abstract_queue (rejected (has_id i) ris))
  withdraw-Fifo i ris = rw (without-tickets i is_sent ris, without-tickets i is_waiting ris) refl

  -- Where nothing that waits is rejected, what waits stays.
  pub release-Fifo :
      (ris : List (ReqInfo R))
      → Fifo releasing (abstract_queue ris) (abstract_queue (rejected is_staged_push ris))
  release-Fifo [] = (none_left, refl)
  release-Fifo (ri ∷ ris) = release_one ri ris (release-Fifo ris)
    where
      release_one :
          (ri : ReqInfo R) (ris : List (ReqInfo R))
          → Fifo releasing (abstract_queue ris) (abstract_queue (rejected is_staged_push ris))
          → Fifo releasing
              (abstract_queue (ri ∷ ris))
              (abstract_queue (rejected is_staged_push (ri ∷ ris)))
      release_one ri ris (fewer, same) = elim (Bool-cases (is_staged_push ri)) [
        | inl e ↦ let w = staged_push_sent ri e in rw (e, w) (left (ticket ri) fewer, same)
        | inr e ↦ elim (Bool-cases (is_waiting ri)) [
          | inl w ↦ rw (e, w) (fewer, ap (◌∷◌ (ticket ri)) same)
          | inr w ↦ rw (e, w) (kept (ticket ri) fewer, same)
        ]
      ]

  pub clear-Fifo :
      (ris : List (ReqInfo R))
      → Fifo clearing (abstract_queue ris) (abstract_queue (filter_by is_sent ris))
  clear-Fifo [] = refl
  clear-Fifo (ri ∷ ris) = elim (Bool-cases (is_waiting ri)) [
    | inl w ↦ rw w (clear-Fifo ris)
    | inr w ↦ rw w (rw w (ap (λ (q : Queue). (ticket ri ∷ q.0, q.1)) (clear-Fifo ris)))
  ]

  some_kept :
      (p : ReqInfo R → Bool) (ris : List (ReqInfo R))
      → Sublist (map ticket (filter_by p ris)) (map ticket ris)
  some_kept p [] = none_left
  some_kept p (ri ∷ ris) = elim (Bool-cases (p ri)) [
    | inl e ↦ rw e (kept (ticket ri) (some_kept p ris))
    | inr e ↦ rw e (left (ticket ri) (some_kept p ris))
  ]

  only_sent :
      (ris : List (ReqInfo R))
      → All IsSent ris
      → (filter_by is_sent ris ≡ ris) × (filter_by is_waiting ris ≡ [])
  only_sent [] h = (refl, refl)
  only_sent (ri ∷ ris) (h, hs) = let (a, b) = only_sent ris hs in rw h (ap (◌∷◌ ri) a, b)

  only_waiting :
      (ris : List (ReqInfo R))
      → All IsWaiting ris
      → (filter_by is_sent ris ≡ []) × (filter_by is_waiting ris ≡ ris)
  only_waiting [] h = (refl, refl)
  only_waiting (ri ∷ ris) (h, hs) = let (a, b) = only_waiting ris hs in rw h (a, ap (◌∷◌ ri) b)

  -- What the abstraction makes of the two parts.
  abstract-parts :
      (xs ys : List (ReqInfo R))
      → All IsSent xs
      → All IsWaiting ys
      → abstract_queue (xs ++ ys) ≡ (map ticket xs, map ticket ys)
  abstract-parts xs ys s w =
      let (a, b) = only_sent xs s in
      let (c, d) = only_waiting ys w in
      rw (filter_by-append is_sent xs ys, filter_by-append is_waiting xs ys)
        (rw (a, b, c, d) (rw (append-nil xs) refl))

  abstract-Partitioned :
      (ris : List (ReqInfo R))
      → Partitioned ris
      → abstract_queue ris
        ≡ (map ticket (take_while is_sent ris), map ticket (drop_while is_sent ris))
  abstract-Partitioned ris p =
      ap abstract_queue (sym (take_while-append-drop_while is_sent ris))
      ∙ abstract-parts (take_while is_sent ris) (drop_while is_sent ris) (take_while-Sent ris)
          (drop_while-Waiting ris p)

  same_tickets :
      (f : ReqInfo R → ReqInfo R) (ris : List (ReqInfo R))
      → ((ri : ReqInfo R) → ticket (f ri) ≡ ticket ri)
      → map ticket (map f ris) ≡ map ticket ris
  same_tickets f [] h = refl
  same_tickets f (ri ∷ ris) h = rw (h ri) (ap (◌∷◌ (ticket ri)) (same_tickets f ris h))

  pub enqueue-Fifo :
      (info : ReqInfo R) (ris : List (ReqInfo R))
      → IsWaiting info
      → Partitioned ris
      → Fifo
          (adding info.req.has_hello_priority (ticket info))
          (abstract_queue ris)
          (abstract_queue (enqueue info ris))
  enqueue-Fifo info ris w p =
      let xs = take_while is_sent ris in
      let ys = drop_while is_sent ris in
      let s = take_while-Sent ris in
      let ws = drop_while-Waiting ris p in
      let back : abstract_queue (ris ++ info ∷ [])
          ≡ (map ticket xs, map ticket ys ++ ticket info ∷ []) =
        ap (λ r. abstract_queue (r ++ info ∷ [])) (sym (take_while-append-drop_while is_sent ris))
        ∙ ap abstract_queue (append_assoc xs ys (info ∷ []))
        ∙ abstract-parts xs (ys ++ info ∷ []) s (All-append IsWaiting ys (info ∷ []) ws (w, tt))
        ∙ ap (λ z. (map ticket xs, z)) (map-append ticket ys (info ∷ [])) in
      between (adding info.req.has_hello_priority (ticket info)) (abstract-Partitioned ris p)
        (ap abstract_queue (enqueue-place info ris w p))
        (if_place info.req.has_hello_priority abstract_queue (λ z. (map ticket xs, z))
          (xs ++ info ∷ ys) (ris ++ info ∷ []) (ticket info ∷ map ticket ys)
          (map ticket ys ++ ticket info ∷ []) (abstract-parts xs (info ∷ ys) s (w, ws)) back)

  pub coalesce-Fifo :
      (ris : List (ReqInfo R))
      → Partitioned ris
      → Fifo sending
          (abstract_queue ris)
          (abstract_queue (take_while is_sent ris ++ map mark_staged (drop_while is_sent ris)))
  coalesce-Fifo ris p =
      let xs = take_while is_sent ris in
      let ys = drop_while is_sent ris in
      let zs = map mark_staged ys in
      let (a, b) =
        only_sent (xs ++ zs) (All-append IsSent xs zs (take_while-Sent ris) (map_staged-Sent ys)) in
      between sending (abstract-Partitioned ris p)
        (rw (a, b, map-append ticket xs zs, same_tickets mark_staged ys (λ ri. refl)) refl) refl

  written_ticket : (ri : ReqInfo R) → ticket (mark_if_staged ri) ≡ ticket ri
  written_ticket ri = ground arith

  pub written_same :
      (ris : List (ReqInfo R)) → abstract_queue (map mark_if_staged ris) ≡ abstract_queue ris
  written_same [] = refl
  written_same (ri ∷ ris) = elim (Bool-cases (is_waiting ri)) [
    | inl e ↦
        rw (mark_if_staged-waiting ri ∙ e, e, written_ticket ri)
          (ap (λ q. (q.0, ticket ri ∷ q.1)) (written_same ris))
    | inr e ↦
        rw (mark_if_staged-waiting ri ∙ e, e, written_ticket ri)
          (ap (λ q. (ticket ri ∷ q.0, q.1)) (written_same ris))
  ]

  whole-parts :
      (ris : List (ReqInfo R))
      → map ticket (take_while is_sent ris) ++ map ticket (drop_while is_sent ris) ≡ map ticket ris
  whole-parts ris =
      sym (map-append ticket (take_while is_sent ris) (drop_while is_sent ris))
      ∙ ap (map ticket) (take_while-append-drop_while is_sent ris)

  -- The queue has what was sent in front of what waits.
  pub abstract-whole :
      (ris : List (ReqInfo R))
      → Partitioned ris
      → map ticket ris ≡ (abstract_queue ris).0 ++ (abstract_queue ris).1
  abstract-whole ris p =
      subst (λ (q : Queue). map ticket ris ≡ q.0 ++ q.1) (sym (abstract-Partitioned ris p))
        (sym (whole-parts ris))

  pub lost-Fifo :
      (ris : List (ReqInfo R))
      → Partitioned ris
      → Fifo losing
          (abstract_queue ris)
          (abstract_queue (map mark_waiting (filter_by survives ris)))
  lost-Fifo ris p =
      let zs = filter_by survives ris in
      let (a, b) = only_waiting (map mark_waiting zs) (map-mark_waiting zs) in
      between losing (abstract-Partitioned ris p)
        (rw (a, b, same_tickets mark_waiting zs (λ ri. refl)) refl)
        (refl, subst (Sublist (map ticket zs)) (sym (whole-parts ris)) (some_kept survives ris))
