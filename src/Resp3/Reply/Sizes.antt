-- ===== src/Resp3/Reply/Sizes.antt =====
-- A reply has at most as many nodes as bytes.
use aedis.Prelude.{ℕ, ◌+◌, ◌≤◌, ◌<◌, ◌≡◌, List, [], ◌∷◌, arith, length, length-append}
use aedis.Prelude.Bytes.{Bytes, to_string}
use aedis.Resp3.Reply.{
  Reply, Replies, line, blob, stream, aggregate, nil, cons, print, print_all, ended, parts, nodes,
  nodes_all, part_nodes, count,
}

pub length-ended : (s rest : Bytes) → length (ended s rest) ≡ length s + 2 + length rest
length-ended s rest = omega (arith, length-append s (b'\r' ∷ b'\n' ∷ rest))

pub parts-le :
    (d : ℕ) (ss : List Bytes) (rest : Bytes)
    → length (part_nodes d ss) + length rest ≤ length (parts ss rest)
parts-le d [] rest = omega (arith, length-ended (to_string 0) rest)
parts-le d (s ∷ ss) rest = omega (
  arith,
  parts-le d ss rest,
  length-ended s (parts ss rest),
  length-ended (to_string (length s)) (ended s (parts ss rest)),
)

-- Each node takes a byte at least.
mutual
  unfolding print nodes

  nodes-le_print :
      (d : ℕ) (r : Reply) (rest : Bytes) → length (nodes d r) + length rest ≤ length (print r rest)
  nodes-le_print d (line t s) rest = omega (arith, length-ended s rest)
  nodes-le_print d (blob t s) rest =
      omega (arith, length-ended s rest, length-ended (to_string (length s)) (ended s rest))
  nodes-le_print d (stream t ss) rest =
      omega (arith, parts-le (d + 1) ss rest, length-ended (b'?' ∷ []) (parts ss rest))
  nodes-le_print d (aggregate t n rs) rest =
      omega
        (arith, nodes_all-le_print (d + 1) rs rest, length-ended (to_string n) (print_all rs rest))

  pub nodes_all-le_print :
      (d : ℕ) (rs : Replies) (rest : Bytes)
      → length (nodes_all d rs) + length rest ≤ length (print_all rs rest)
  nodes_all-le_print d nil rest = omega arith
  nodes_all-le_print d (cons r rs) rest = omega (
    arith,
    nodes-le_print d r (print_all rs rest),
    nodes_all-le_print d rs rest,
    length-append (nodes d r) (nodes_all d rs),
  )

pub nodes-le :
    (d : ℕ) (r : Reply) (rest : Bytes) → length (nodes d r) + length rest ≤ length (print r rest)
nodes-le d r rest = nodes-le_print d r rest

nodes_pos : (d : ℕ) (r : Reply) → 0 < length (nodes d r)
unfolding nodes
nodes_pos d (line t s) = omega arith
nodes_pos d (blob t s) = omega arith
nodes_pos d (stream t ss) = omega arith
nodes_pos d (aggregate t n rs) = omega arith

pub count-le : (d : ℕ) (rs : Replies) → count rs ≤ length (nodes_all d rs)
unfolding count nodes
count-le d nil = omega arith
count-le d (cons r rs) =
    omega (arith, nodes_pos d r, count-le d rs, length-append (nodes d r) (nodes_all d rs))

pub parts-length : (d : ℕ) (ss : List Bytes) → length ss < length (part_nodes d ss)
parts-length d [] = omega arith
parts-length d (s ∷ ss) = omega (arith, parts-length d ss)
