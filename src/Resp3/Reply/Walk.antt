-- ===== src/Resp3/Reply/Walk.antt =====
-- The parser walks through a reply in pre-order.
use aedis.Prelude.{
  ℕ, zero, suc, ◌+◌, ◌*◌, ◌<◌, ◌≡◌, ◌≢◌, sym, ◌∙◌, inl, inr, false, List, [], ◌∷◌, append-nil,
  arith, length, All, word_mod, size_max, subst,
}
use aedis.Prelude.Bytes.{Bytes, to_string}
use aedis.Prelude.Run.{ok}
use aedis.Resp3.Types.{RespType, streamed_string, element_multiplicity}
use aedis.Resp3.Node.{Node}
use aedis.Resp3.Parser.{Parser, make_node, got, consume, done, max_embedded_depth}
use aedis.Resp3.Reply.{
  Reply, Replies, line, blob, stream, aggregate, nil, cons, print, print_all, ended, parts, nodes,
  nodes_all, part_nodes, count, Fits, FitsAll, mark, IsBlob,
}
use aedis.Resp3.Reply.Counts.{Held-depth, Held-some}
use aedis.Resp3.Reply.Places.{
  Reading, Behind, Behind-Reading, Ready, Visits, visit, Visits-append, Walked,
}
use aedis.Resp3.Reply.Sizes.{length-ended, parts-le, parts-length, nodes_all-le_print, count-le}
use aedis.Resp3.Reply.Elements.{walk_line, walk_blob}
use aedis.Resp3.Reply.Aggregates.{walk_empty, enter_aggregate}
use aedis.Resp3.Reply.Streams.{enter_stream, walk_parts}

module _ (view : Bytes) (bound : length view < word_mod) where
  -- A header, and what follows it one level down.
  walk_below :
      (p q : Parser) (counts : List ℕ) (nd : Node) (f : ℕ → List Node) (rest : Bytes)
      → done p ≡ false
      → Ready view p
      → consume p view ≡ ok (got q nd)
      → q.depth ≡ p.depth + 1
      → Walked view q counts (f q.depth) rest
      → Walked view p counts (nd ∷ f (p.depth + 1)) rest
  walk_below p q counts nd f rest going ready read e (r, visits, b) =
      (r, visit going ready read (subst (λ d. Visits view q (f d) r) e visits), b)

  -- Behind the last element of an aggregate stands what is behind the aggregate.
  leave :
      (q : Parser) (counts : List ℕ) (rest : Bytes)
      → Behind view q (1 ∷ counts) rest
      → Behind view q counts rest
  leave q counts rest b = record {
    started = b.started;
    quiet = b.quiet;
    six = b.six;
    shallow = b.shallow;
    next = b.next;
    stands = b.stands;
  }

  walk_stream :
      (p : Parser) (counts : List ℕ) (t : RespType) (ss : List Bytes) (rest : Bytes)
      → IsBlob t
      → p.depth < max_embedded_depth
      → All (λ s. s ≢ []) ss
      → Reading view p counts (mark t ∷ ended (b'?' ∷ []) (parts ss rest))
      → Walked view p counts
          (make_node streamed_string 0 (p.depth + 1) [] ∷ part_nodes (p.depth + 1) ss)
          rest
  walk_stream p counts t ss rest h room whole v =
      let (q, ready, read, e, w) = enter_stream view bound p counts t (parts ss rest) h room v in
      let few : length ss < size_max = omega (
        arith,
        v.stands.1,
        length-ended (b'?' ∷ []) (parts ss rest),
        parts-le 0 ss rest,
        parts-length 0 ss,
      ) in
      walk_below p q counts _ (λ d. part_nodes d ss) rest v.going ready read e
        (walk_parts view bound ss q size_max counts rest whole few w)

  mutual
    unfolding print nodes count Fits

    walk :
        (r : Reply) (p : Parser) (counts : List ℕ) (rest : Bytes)
        → Fits p.depth r
        → Reading view p counts (print r rest)
        → Walked view p counts (nodes p.depth r) rest
    walk (line t s) p counts rest (h, no_cr) v = walk_line view bound p counts t s rest h no_cr v
    walk (blob t s) p counts rest h v = walk_blob view bound p counts t s rest h v
    walk (stream t ss) p counts rest (h, room, whole) v =
        walk_stream p counts t ss rest h room whole v
    walk (aggregate t zero nil) p counts rest (h, size, room, below) v =
        walk_empty view bound p counts t rest h v
    walk (aggregate t zero (cons r rs)) p counts rest (h, size, room, below) v =
        absurd (omega arith)
    walk (aggregate t (suc n) rs) p counts rest (h, size, inl none_left, below) v =
        absurd (omega arith)
    walk (aggregate t (suc n) rs) p counts rest (h, size, inr room, below) v =
        let small : suc n * element_multiplicity t < word_mod = omega (
          arith,
          v.stands.1,
          length-ended (to_string (suc n)) (print_all rs rest),
          nodes_all-le_print 0 rs rest,
          count-le 0 rs,
        ) in
        let (q, ready, read, e, w) =
          enter_aggregate view bound p counts t (suc n) (print_all rs rest) h (omega arith) small
            room v in
        walk_below p q counts _ (λ d. nodes_all d rs) rest v.going ready read e
          (walk_all rs q counts rest (subst (λ d. FitsAll d rs) (sym e) below)
            (subst (λ m. Reading view q (m ∷ counts) (print_all rs rest)) (sym size) w))

    walk_all :
        (rs : Replies) (p : Parser) (counts : List ℕ) (rest : Bytes)
        → FitsAll p.depth rs
        → Reading view p (count rs ∷ counts) (print_all rs rest)
        → Walked view p counts (nodes_all p.depth rs) rest
    walk_all nil p counts rest h v =
        absurd (omega (arith, Held-some p.depth 0 p.sizes counts v.held))
    walk_all (cons r nil) p counts rest (h, others) v =
        let (q, visits, b) = walk r p (1 ∷ counts) rest h v in
        (q, rw (append-nil (nodes p.depth r)) visits, leave q counts rest b)
    walk_all (cons r (cons r' rs)) p counts rest (h, others) v =
        let behind = print_all (cons r' rs) rest in
        let (q, visits, b) = walk r p (suc (suc (count rs)) ∷ counts) behind h v in
        let w = Behind-Reading view q (count rs) counts behind b in
        let same : q.depth ≡ p.depth =
          Held-depth q.depth q.sizes (suc (count rs) ∷ counts) w.held
          ∙ sym (Held-depth p.depth p.sizes (suc (suc (count rs)) ∷ counts) v.held) in
        let (u, visits', b') =
          walk_all (cons r' rs) q counts rest
            (subst (λ d. FitsAll d (cons r' rs)) (sym same) others) w in
        (
          u,
          Visits-append visits
              (subst (λ d. Visits view q (nodes_all d (cons r' rs)) u) same visits'),
          b',
        )

  -- From a place in a message the parser gives the nodes of the reply that stands there, in
  -- pre-order, and stops behind it.
  pub reply-Walked :
      (r : Reply) (p : Parser) (counts : List ℕ) (rest : Bytes)
      → Fits p.depth r
      → Reading view p counts (print r rest)
      → Walked view p counts (nodes p.depth r) rest
  reply-Walked r p counts rest h v = walk r p counts rest h v
