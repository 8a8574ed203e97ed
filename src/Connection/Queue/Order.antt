-- ===== src/Connection/Queue/Order.antt =====
-- The queue is partitioned: what was sent stands before what waits.
use mathlib.Core.List.{reverse, reverse-append, reverse-cons, reverse-reverse}
use aedis.Prelude.{
  ◌≡◌, refl, sym, ap, ◌∙◌, inl, inr, Bool, true, false, List, [], ◌∷◌, ◌++◌, append_assoc, map, All,
  arith, if◌then◌else◌, filter_by, take_while, drop_while, Bool-cases,
}
use aedis.Connection.{ReqInfo}
use aedis.Connection.Queue.{
  is_waiting, is_sent, mark_waiting, mark_staged, mark_if_staged, rotate_one, rotate_priority,
  enqueue,
}

module _ {R : Type 0} where
  abbrev pub IsWaiting : ReqInfo R → Type 0
  IsWaiting ri = is_waiting ri ≡ true

  abbrev pub IsSent : ReqInfo R → Type 0
  IsSent ri = is_waiting ri ≡ false

  -- Behind a waiting request all are waiting.
  abbrev pub Partitioned : List (ReqInfo R) → Type 0
  Partitioned [] = Unit
  Partitioned (ri ∷ ris) = (IsWaiting ri → All IsWaiting ris) × Partitioned ris

  pub Waiting-Partitioned : (ris : List (ReqInfo R)) → All IsWaiting ris → Partitioned ris
  Waiting-Partitioned [] h = tt
  Waiting-Partitioned (ri ∷ ris) (w, ws) = (λ _. ws, Waiting-Partitioned ris ws)

  pub append-Partitioned :
      (xs ys : List (ReqInfo R)) → All IsSent xs → All IsWaiting ys → Partitioned (xs ++ ys)
  append-Partitioned [] ys h w = Waiting-Partitioned ys w
  append-Partitioned (x ∷ xs) ys (s, ss) w = (λ e. cc, append-Partitioned xs ys ss w)

  pub take_while-Sent : (ris : List (ReqInfo R)) → All IsSent (take_while is_sent ris)
  take_while-Sent [] = tt
  take_while-Sent (ri ∷ ris) = ground (arith, take_while-Sent ris)

  pub drop_while-Waiting :
      (ris : List (ReqInfo R)) → Partitioned ris → All IsWaiting (drop_while is_sent ris)
  drop_while-Waiting [] h = tt
  drop_while-Waiting (ri ∷ ris) (h, p) = elim (Bool-cases (is_waiting ri)) [
    | inl w ↦ rw w (w, h w)
    | inr s ↦ rw s (drop_while-Waiting ris p)
  ]

  pub take_while-append-drop_while :
      (p : ReqInfo R → Bool) (ris : List (ReqInfo R)) → take_while p ris ++ drop_while p ris ≡ ris
  take_while-append-drop_while p [] = refl
  take_while-append-drop_while p (ri ∷ ris) = elim (Bool-cases (p ri)) [
    | inl e ↦ rw e (ap (◌∷◌ ri) (take_while-append-drop_while p ris))
    | inr e ↦ rw e
  ]

  pub filter_by-All :
      (P : ReqInfo R → Type 0) (p : ReqInfo R → Bool) (ris : List (ReqInfo R))
      → All P ris
      → All P (filter_by p ris)
  filter_by-All P p [] h = tt
  filter_by-All P p (ri ∷ ris) (h, hs) = elim (Bool-cases (p ri)) [
    | inl e ↦ rw e (h, filter_by-All P p ris hs)
    | inr e ↦ rw e (filter_by-All P p ris hs)
  ]

  pub filter_by-Partitioned :
      (p : ReqInfo R → Bool) (ris : List (ReqInfo R))
      → Partitioned ris
      → Partitioned (filter_by p ris)
  filter_by-Partitioned p [] h = tt
  filter_by-Partitioned p (ri ∷ ris) (h, hs) = elim (Bool-cases (p ri)) [
    | inl e ↦ rw e (λ w. filter_by-All IsWaiting p ris (h w), filter_by-Partitioned p ris hs)
    | inr e ↦ rw e (filter_by-Partitioned p ris hs)
  ]

  pub map_staged-Sent : (ris : List (ReqInfo R)) → All IsSent (map mark_staged ris)
  map_staged-Sent [] = tt
  map_staged-Sent (ri ∷ ris) = (refl, map_staged-Sent ris)

  pub map-mark_waiting : (ris : List (ReqInfo R)) → All IsWaiting (map mark_waiting ris)
  map-mark_waiting [] = tt
  map-mark_waiting (ri ∷ ris) = (refl, map-mark_waiting ris)

  pub mark_if_staged-waiting : (ri : ReqInfo R) → is_waiting (mark_if_staged ri) ≡ is_waiting ri
  mark_if_staged-waiting ri = ground arith

  map_written-Waiting :
      (ris : List (ReqInfo R)) → All IsWaiting ris → All IsWaiting (map mark_if_staged ris)
  map_written-Waiting [] h = tt
  map_written-Waiting (ri ∷ ris) (h, hs) =
      (mark_if_staged-waiting ri ∙ h, map_written-Waiting ris hs)

  pub map_written-Partitioned :
      (ris : List (ReqInfo R)) → Partitioned ris → Partitioned (map mark_if_staged ris)
  map_written-Partitioned [] h = tt
  map_written-Partitioned (ri ∷ ris) (h, hs) = (
    λ w. map_written-Waiting ris (h (sym (mark_if_staged-waiting ri) ∙ w)),
    map_written-Partitioned ris hs,
  )

  pub All-append :
      (P : ReqInfo R → Type 0) (xs ys : List (ReqInfo R)) → All P xs → All P ys → All P (xs ++ ys)
  All-append P [] ys hx hy = hy
  All-append P (x ∷ xs) ys (h, hx) hy = (h, All-append P xs ys hx hy)

  All-reverse : (P : ReqInfo R → Type 0) (xs : List (ReqInfo R)) → All P xs → All P (reverse xs)
  All-reverse P [] h = tt
  All-reverse P (x ∷ xs) (h, hs) =
      rw (reverse-cons x xs) (All-append P (reverse xs) (x ∷ []) (All-reverse P xs hs) (h, tt))

  take_waiting :
      (xs ys : List (ReqInfo R))
      → All IsWaiting xs
      → All IsSent ys
      → take_while is_waiting (xs ++ ys) ≡ xs
  take_waiting [] [] w s = refl
  take_waiting [] (y ∷ ys) w (s, ss) = rw s
  take_waiting (x ∷ xs) ys (w, ws) s = rw w (ap (◌∷◌ x) (take_waiting xs ys ws s))

  drop_waiting :
      (xs ys : List (ReqInfo R))
      → All IsWaiting xs
      → All IsSent ys
      → drop_while is_waiting (xs ++ ys) ≡ ys
  drop_waiting [] [] w s = refl
  drop_waiting [] (y ∷ ys) w (s, ss) = rw s
  drop_waiting (x ∷ xs) ys (w, ws) s = rw w (drop_waiting xs ys ws s)

  from_back :
      (xs ys : List (ReqInfo R)) (info : ReqInfo R)
      → reverse ((xs ++ ys) ++ info ∷ []) ≡ (info ∷ reverse ys) ++ reverse xs
  from_back xs ys info = rw (reverse-append (xs ++ ys) (info ∷ []), reverse-append xs ys)

  to_front :
      (xs ys : List (ReqInfo R)) (info : ReqInfo R)
      → reverse ((reverse ys ++ info ∷ []) ++ reverse xs) ≡ xs ++ info ∷ ys
  to_front xs ys info = rw (
    reverse-append (reverse ys ++ info ∷ []) (reverse xs),
    reverse-reverse xs,
    reverse-append (reverse ys) (info ∷ []),
    reverse-reverse ys,
  )

  rotate_priority_split :
      (xs ys : List (ReqInfo R)) (info : ReqInfo R)
      → IsWaiting info
      → All IsSent xs
      → All IsWaiting ys
      → rotate_priority ((xs ++ ys) ++ info ∷ []) ≡ xs ++ info ∷ ys
  unfolding rotate_priority
  rotate_priority_split xs ys info w s ws =
      ap (λ back. reverse (rotate_one (take_while is_waiting back) ++ drop_while is_waiting back))
        (from_back xs ys info)
      ∙ ap
          (λ t. reverse (rotate_one t ++ drop_while is_waiting ((info ∷ reverse ys) ++ reverse xs)))
          (take_waiting (info ∷ reverse ys) (reverse xs) (w, All-reverse IsWaiting ys ws)
            (All-reverse IsSent xs s))
      ∙ ap (λ d. reverse ((reverse ys ++ info ∷ []) ++ d))
          (drop_waiting (info ∷ reverse ys) (reverse xs) (w, All-reverse IsWaiting ys ws)
            (All-reverse IsSent xs s))
      ∙ to_front xs ys info

  -- In a partitioned queue a request with `HELLO` priority goes in front of all that wait and
  -- behind all that were sent; any other goes to the end.
  pub enqueue-place :
      (info : ReqInfo R) (reqs : List (ReqInfo R))
      → IsWaiting info
      → Partitioned reqs
      → enqueue info reqs ≡ (
          if info.req.has_hello_priority
          then take_while is_sent reqs ++ info ∷ drop_while is_sent reqs
          else reqs ++ info ∷ [])
  unfolding enqueue
  enqueue-place info reqs w p =
      ap (λ x. if info.req.has_hello_priority then x else reqs ++ info ∷ [])
        (ap (λ r. rotate_priority (r ++ info ∷ []))
            (sym (take_while-append-drop_while is_sent reqs))
          ∙ rotate_priority_split (take_while is_sent reqs) (drop_while is_sent reqs) info w
              (take_while-Sent reqs) (drop_while-Waiting reqs p))

  pub enqueue-Partitioned :
      (info : ReqInfo R) (reqs : List (ReqInfo R))
      → IsWaiting info
      → Partitioned reqs
      → Partitioned (enqueue info reqs)
  enqueue-Partitioned info reqs w p =
      rw (enqueue-place info reqs w p) (choose info.req.has_hello_priority)
    where
      at_back : Partitioned (reqs ++ info ∷ [])
      at_back =
          rw (← take_while-append-drop_while is_sent reqs, append_assoc)
            (append-Partitioned (take_while is_sent reqs) (drop_while is_sent reqs ++ info ∷ [])
              (take_while-Sent reqs)
              (All-append IsWaiting (drop_while is_sent reqs) (info ∷ [])
                (drop_while-Waiting reqs p) (w, tt)))

      choose :
          (b : Bool)
          → Partitioned (
              if b
              then take_while is_sent reqs ++ info ∷ drop_while is_sent reqs
              else reqs ++ info ∷ [])
      choose true =
          append-Partitioned (take_while is_sent reqs) (info ∷ drop_while is_sent reqs)
            (take_while-Sent reqs) (w, drop_while-Waiting reqs p)
      choose false = at_back
