-- ===== src/Resp3/Reply/Parsed.antt =====
-- A whole reply, read by the free function `parse`.
use aedis.Prelude.{
  ℕ, suc, ◌+◌, ◌-◌, ◌*◌, ◌<◌, ◌≡◌, refl, sym, ap, ◌∙◌, true, Option, none, [], ◌++◌, append-nil,
  arith, length, word_mod, subst,
}
use aedis.Prelude.Bytes.{Bytes}
use aedis.Prelude.Run.{ok}
use aedis.Error.{Failure}
use aedis.Resp3.Node.{Node}
use aedis.Resp3.Parser.{Parser, reset, done, finished, parse, parse_fuel}
use aedis.Resp3.Parser.Trace.{complete, trace, conclude, Takes, parse-trace}
use aedis.Resp3.Reply.{Reply, print, nodes, Fits}
use aedis.Resp3.Reply.Places.{Stands, Reading, Behind, Visits, trace-Visits}
use aedis.Resp3.Reply.Sizes.{nodes-le}
use aedis.Resp3.Reply.Walk.{reply-Walked}

reset-Reading : (view : Bytes) → Reading view reset [] view
unfolding done
reset-Reading view = record {
  going = refl;
  quiet = refl;
  six = refl;
  shallow = omega arith;
  held = refl;
  stands = (refl, omega arith);
}

Behind-done : (view : Bytes) (q : Parser) (rest : Bytes) → Behind view q [] rest → done q ≡ true
unfolding done
Behind-done view q rest b =
    let top : q.depth ≡ 0 = b.next in rw (b.quiet) (ground (arith, b.started))

-- From a fresh parser through a whole reply.
pub reply-Visits :
    (r : Reply) (rest : Bytes)
    → length (print r rest) < word_mod
    → Fits 0 r
    → (q : Parser) × Visits (print r rest) reset (nodes 0 r) q
      × (done q ≡ true)
      × Stands q.consumed (print r rest) rest
reply-Visits r rest bound fits =
    let view = print r rest in
    let (q, visits, b) = reply-Walked view bound r reset [] rest fits (reset-Reading view) in
    (q, visits, Behind-done view q rest b, b.stands)

-- The nodes of a reply from a fresh parser.
pub trace-nodes :
    (r : Reply) (rest : Bytes)
    → length (print r rest) < word_mod
    → Fits 0 r
    → (q : Parser) × (trace (parse_fuel (print r rest)) reset (print r rest)
        ≡ (nodes 0 r, complete q))
      × Stands q.consumed (print r rest) rest
unfolding trace
trace-nodes r rest bound fits =
    let view = print r rest in
    let (q, visits, ended, stands) = reply-Visits r rest bound fits in
    let k : ℕ = 2 * length view + 1 - length (nodes 0 r) in
    let fuel : 2 * length view + 2 ≡ length (nodes 0 r) + suc k =
      omega (arith, nodes-le 0 r rest) in
    let last : trace (suc k) q view ≡ ([], complete q) = rw (ended, trace) refl in
    (
      q,
      ap (λ n. trace n reset view) fuel
          ∙ trace-Visits visits (suc k)
          ∙ ap (λ x. (nodes 0 r ++ x.0, x.1)) last
          ∙ ap (λ ns. (ns, complete q)) (append-nil (nodes 0 r)),
      stands,
    )

-- A reply of lines, blobs, blobs in parts and aggregates, nested no deeper than
-- `max_embedded_depth`, in fewer than 2^64 bytes with more data behind it: an adapter that takes the
-- nodes of its pre-order is handed exactly these, the parser returns without an error what the
-- adapter made of them, and stops behind the reply.
pub parse-reply :
    {A : Type 0} (adapter : A → Node → A × Option Failure) (a b : A) (r : Reply) (rest : Bytes)
    → length (print r rest) < word_mod
    → Fits 0 r
    → Takes adapter a (nodes 0 r) b
    → (q : Parser) × (parse adapter (parse_fuel (print r rest)) reset (print r rest) a
        ≡ ok (finished q b none))
      × Stands q.consumed (print r rest) rest
parse-reply adapter a b r rest bound fits takes =
    let view = print r rest in
    let (q, e, stands) = trace-nodes r rest bound fits in
    (
      q,
      parse-trace adapter (parse_fuel view) reset view a b
            (subst (λ t. Takes adapter a t.0 b) (sym e) takes)
          ∙ ap (λ t. conclude t.1 b) e,
      stands,
    )
