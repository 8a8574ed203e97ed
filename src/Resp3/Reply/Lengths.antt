-- ===== src/Resp3/Reply/Lengths.antt =====
-- The bytes of a reply, apart from what stands behind it.
use aedis.Prelude.{◌+◌, ◌<◌, ◌≡◌, refl, List, [], ◌∷◌, arith, length}
use aedis.Prelude.Bytes.{Bytes, to_string}
use aedis.Resp3.Types.{to_type}
use aedis.Resp3.Reply.{
  Reply, Replies, line, blob, stream, aggregate, nil, cons, print, print_all, parts, ended, Fits,
  mark, type_of,
}
use aedis.Resp3.Reply.Sizes.{length-ended}
use aedis.Resp3.Reply.Elements.{mark_lem, line-IsMarked, blob-IsMarked}
use aedis.Resp3.Reply.Aggregates.{aggregate-IsMarked}

length-parts :
    (ss : List Bytes) (rest : Bytes) → length (parts ss rest) ≡ length (parts ss []) + length rest
length-parts [] rest = omega (arith, length-ended (to_string 0) rest, length-ended (to_string 0) [])
length-parts (s ∷ ss) rest = omega (
  arith,
  length-parts ss rest,
  length-ended s (parts ss rest),
  length-ended s (parts ss []),
  length-ended (to_string (length s)) (ended s (parts ss rest)),
  length-ended (to_string (length s)) (ended s (parts ss [])),
)

mutual
  unfolding print

  length-print_rest :
      (r : Reply) (rest : Bytes) → length (print r rest) ≡ length (print r []) + length rest
  length-print_rest (line t s) rest = omega (arith, length-ended s rest, length-ended s [])
  length-print_rest (blob t s) rest = omega (
    arith,
    length-ended s rest,
    length-ended s [],
    length-ended (to_string (length s)) (ended s rest),
    length-ended (to_string (length s)) (ended s []),
  )
  length-print_rest (stream t ss) rest = omega (
    arith,
    length-parts ss rest,
    length-ended (b'?' ∷ []) (parts ss rest),
    length-ended (b'?' ∷ []) (parts ss []),
  )
  length-print_rest (aggregate t n rs) rest = omega (
    arith,
    length-print_all rs rest,
    length-ended (to_string n) (print_all rs rest),
    length-ended (to_string n) (print_all rs []),
  )

  length-print_all :
      (rs : Replies) (rest : Bytes)
      → length (print_all rs rest) ≡ length (print_all rs []) + length rest
  length-print_all nil rest = omega arith
  length-print_all (cons r rs) rest = omega (
    arith,
    length-print_rest r (print_all rs rest),
    length-print_rest r (print_all rs []),
    length-print_all rs rest,
  )

pub length-print :
    (r : Reply) (rest : Bytes) → length (print r rest) ≡ length (print r []) + length rest
length-print r rest = length-print_rest r rest

pub print_pos : (r : Reply) → 0 < length (print r [])
unfolding print
print_pos (line t s) = omega arith
print_pos (blob t s) = omega arith
print_pos (stream t ss) = omega arith
print_pos (aggregate t n rs) = omega arith

-- The first byte tells the type.
pub print_first :
    (r : Reply) (rest : Bytes)
    → Fits 0 r
    → (s : Bytes) × (print r rest ≡ mark (type_of r) ∷ s) × (to_type (mark (type_of r)) ≡ type_of r)
unfolding print Fits
print_first (line t s) rest h = (_, refl, (mark_lem t (line-IsMarked t s h.0)).0)
print_first (blob t s) rest h = (_, refl, (mark_lem t (blob-IsMarked t h)).0)
print_first (stream t ss) rest h = (_, refl, (mark_lem t (blob-IsMarked t h.0)).0)
print_first (aggregate t n rs) rest h = (_, refl, (mark_lem t (aggregate-IsMarked t h.0)).0)
