-- ===== src/Connection/Answered/Begun.antt =====
-- From one reply to the next.
use aedis.Prelude.{
  ℕ, suc, ◌+◌, ◌<◌, ◌≡◌, refl, sym, ap, ◌∙◌, ◌⊎◌, inl, inr, true, false, Option, none, List, [],
  ◌∷◌, ◌++◌, arith, length, drop, All, word_mod, subst, cons-ne-nil,
}
use aedis.Prelude.Bytes.{Bytes}
use aedis.Error.{Failure}
use aedis.Resp3.Node.{Node}
use aedis.Resp3.Parser.{Parser, reset, finished}
use aedis.Resp3.Reply.{Reply, print, nodes}
use aedis.Resp3.Reply.Parsed.{reply-Visits}
use aedis.Resp3.Reply.Lengths.{length-print}
use aedis.Connection.{ReqInfo, Connection}
use aedis.Connection.Read.{resp, after_response}
use aedis.Connection.Answered.{size, facing, Fills, Exchange, IsExchange}
use aedis.Connection.Answered.Replies.{advanced, noted, after_response-next, after_response-last}
use aedis.Connection.Answered.Pipeline.{
  infos, print_exchanges, handed, all_handed, length-print_replies,
}
use aedis.Connection.Answered.Midway.{amid, remaining, Front, Midway}

module _ {R S : Type 0} (adapt : ℕ → R → Node → R × Option Failure)
    (receive_adapter : S → Node → S × Option Failure) where
  -- In the middle of the replies, or behind the last.
  abbrev pub Resting : Connection R S → Bytes → Connection R S → Type 0
  Resting d coming goal =
      ((c : Connection R S) × (ri : ReqInfo R) × (ris : List (ReqInfo R)) × (p : Parser)
        × (seen : Bytes) × (d ≡ amid c (ri ∷ ris) p seen)
        × Midway adapt receive_adapter c ri ris p seen coming goal)
      ⊎ ((d ≡ goal) × (d.read_buffer ≡ []) × (d.parser ≡ reset) × (coming ≡ []))

  -- A reply is begun.
  begin_reply :
      (c : Connection R S) (ri : ReqInfo R) (ris : List (ReqInfo R)) (r : Reply) (rs : List Reply)
      (xs : List (Exchange adapt)) (i : ℕ) (b : R) (seen coming : Bytes) (goal : Connection R S)
      → Front adapt receive_adapter c ri ris r rs xs i b goal
      → Fills adapt i ri.resp (r ∷ rs) b
      → seen ++ coming ≡ print r (remaining adapt receive_adapter rs xs)
      → length (print r (remaining adapt receive_adapter rs xs)) < word_mod
      → Midway adapt receive_adapter c ri ris reset seen coming goal
  begin_reply c ri ris r rs xs i b seen coming goal front (m, takes, fills) stream bound =
      let (q, visits, ended, stands) =
        reply-Visits r (remaining adapt receive_adapter rs xs) bound front.responses.0.0 in
      record {
        reply = r;
        replies = rs;
        exchanges = xs;
        command = i;
        middle = m;
        filled = b;
        last = q;
        ahead = nodes 0 r;
        front = front;
        visits = visits;
        ended = ended;
        stands = stands;
        inside = omega arith;
        takes = takes;
        fills = fills;
        stream = stream;
        bound = bound;
      }

  begin_exchange :
      (c : Connection R S) (ri : ReqInfo R) (rs : List Reply) (b : R) (xs : List (Exchange adapt))
      (behind : List (ReqInfo R)) (seen coming : Bytes) (goal : Connection R S)
      → c.is_open ≡ true
      → IsExchange adapt (record { info = ri; replies = rs; filled = b })
      → All (IsExchange adapt) xs
      → seen ++ coming ≡ remaining adapt receive_adapter rs xs
      → length (remaining adapt receive_adapter rs xs) < word_mod
      → goal
        ≡ facing
            (all_handed adapt receive_adapter (handed adapt receive_adapter c ri rs b) xs)
            behind
            []
      → Midway adapt receive_adapter c ri
          (infos adapt receive_adapter xs ++ behind)
          reset
          seen
          coming
          goal
  begin_exchange c ri [] b xs behind seen coming goal o h others stream bound final =
      absurd (omega (arith, h.several))
  begin_exchange c ri (r ∷ rs) b xs behind seen coming goal o h others stream bound final =
      begin_reply c ri (infos adapt receive_adapter xs ++ behind) r rs xs 0 b seen coming goal
        (record {
          behind = behind;
          is_open = o;
          sent = h.sent;
          expected = h.expected;
          fresh = omega (arith, h.fresh);
          small =
              omega
                (arith, length-print_replies (r ∷ rs) (print_exchanges adapt receive_adapter xs));
          responses = h.responses;
          others = others;
          queue = refl;
          final = final;
        })
        h.fills stream bound

  nothing_left : (s t : Bytes) → s ++ t ≡ [] → (s ≡ []) × (t ≡ [])
  nothing_left [] t e = (refl, e)
  nothing_left (x ∷ s) t e = absurd (cons-ne-nil x (s ++ t) e)

  pub begin_exchanges :
      (xs : List (Exchange adapt)) (c : Connection R S) (behind : List (ReqInfo R))
      (seen coming : Bytes) (goal : Connection R S)
      → c.is_open ≡ true
      → All (IsExchange adapt) xs
      → seen ++ coming ≡ print_exchanges adapt receive_adapter xs
      → length (print_exchanges adapt receive_adapter xs) < word_mod
      → goal ≡ facing (all_handed adapt receive_adapter c xs) behind []
      → Resting (facing c (infos adapt receive_adapter xs ++ behind) seen) coming goal
  begin_exchanges [] c behind seen coming goal o h stream bound final =
      let (s, t) = nothing_left seen coming stream in
      inr (ap (λ x. facing c behind x) s ∙ sym final, s, refl, t)
  begin_exchanges (x ∷ xs) c behind seen coming goal o (h, others) stream bound final = inl (
    c,
    x.info,
    infos adapt receive_adapter xs ++ behind,
    reset,
    seen,
    refl,
    begin_exchange c x.info x.replies x.filled xs behind seen coming goal o h others stream bound
        final,
  )

  -- The reply was read: the next is begun.
  pub next_reply :
      (c : Connection R S) (ri : ReqInfo R) (ris : List (ReqInfo R)) (p q : Parser) (r : Reply)
      (rs : List Reply) (xs : List (Exchange adapt)) (i : ℕ) (m b : R) (seen coming : Bytes)
      (goal : Connection R S)
      → Front adapt receive_adapter c ri ris r rs xs i b goal
      → Fills adapt (i + 1) m rs b
      → q.consumed ≡ size r
      → drop (size r) seen ++ coming ≡ remaining adapt receive_adapter rs xs
      → length (print r (remaining adapt receive_adapter rs xs)) < word_mod
      → (d : Connection R S) × (after_response adapt receive_adapter ri ris
            (amid c (ri ∷ ris) p seen)
            (finished q m none)
          ≡ (d, (resp, size r, none)))
        × Resting d coming goal
        × (d.read_buffer ≡ drop (size r) seen)
  next_reply c ri ris p q r [] xs i m b seen coming goal front fills consumed stream bound =
      let c' = handed adapt receive_adapter c ri (r ∷ []) b in
      let exact : remaining adapt receive_adapter [] xs ≡ print_exchanges adapt receive_adapter xs =
        refl in
      (
        facing c' ris (drop (size r) seen),
        after_response-last adapt receive_adapter c ri ris (ri ∷ ris) r p q false seen m consumed
              front.expected
            ∙ ap
                (λ y. (
                  facing (handed adapt receive_adapter c ri (r ∷ []) y) ris (drop (size r) seen),
                  (resp, size r, none),
                ))
                fills,
        subst (λ l. Resting (facing c' l (drop (size r) seen)) coming goal) (sym front.queue)
            (begin_exchanges xs c' front.behind (drop (size r) seen) coming goal front.is_open
              front.others stream
              (omega (arith, length-print r (print_exchanges adapt receive_adapter xs)))
              front.final),
        refl,
      )
  next_reply c ri ris p q r (r' ∷ rs) xs i m b seen coming goal front fills consumed stream bound =
      let ri' = advanced adapt receive_adapter ri (suc (length rs)) r m in
      let c' = noted adapt receive_adapter c r in
      (
        facing c' (ri' ∷ ris) (drop (size r) seen),
        after_response-next adapt receive_adapter c ri ris (ri ∷ ris) (length rs) r p q false seen m
            consumed front.expected (omega (arith, front.small)),
        inl (
          c',
          ri',
          ris,
          reset,
          drop (size r) seen,
          refl,
          begin_reply c' ri' ris r' rs xs (i + 1) b (drop (size r) seen) coming goal
              (record {
                behind = front.behind;
                is_open = front.is_open;
                sent = front.sent;
                expected = refl;
                fresh = omega (arith, front.fresh);
                small = omega (arith, front.small);
                responses = front.responses.1;
                others = front.others;
                queue = front.queue;
                final = front.final;
              })
              fills stream
              (omega (arith, length-print r (remaining adapt receive_adapter (r' ∷ rs) xs))),
        ),
        refl,
      )
