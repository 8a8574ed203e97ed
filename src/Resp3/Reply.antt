-- ===== src/Resp3/Reply.antt =====
-- A reply of the server as a tree, its bytes and the nodes that its pre-order has.
--
-- This is the RESP3 protocol that resp3/impl/parser.ipp reads; the parser is compared with it.
pub mod Counts
pub mod Places
pub mod Elements
pub mod Aggregates
pub mod Streams
pub mod Sizes
pub mod Lengths
pub mod Walk
pub mod Parsed
pub mod Prefix
pub mod Chunks
pub mod Growth
pub mod Examples
use aedis.Prelude.{
  ℕ, zero, suc, ◌+◌, ◌*◌, ◌<◌, ◌≡◌, ◌≢◌, ◌⊎◌, true, List, [], ◌∷◌, ◌++◌, All, length,
}
use aedis.Prelude.Bytes.{Bytes}
use aedis.Prelude.Run.{ok, crash}
use aedis.Resp3.Types.{
  RespType, simple_string, simple_error, number, doublean, boolean, big_number, null, blob_error,
  verbatim_string, blob_string, streamed_string, streamed_string_part, to_code, is_aggregate,
  element_multiplicity,
}
use aedis.Resp3.Node.{Node}
use aedis.Resp3.Parser.{make_node, max_embedded_depth}
use aedis.Resp3.Serialization.Wire.{counted}

-- A line; a blob with its length in front; a blob in parts, which ends with an empty one; and an
-- aggregate with the size that it announces.
mutual
  pub data Reply : Type 0 where
    line : RespType → Bytes → Reply
    blob : RespType → Bytes → Reply
    stream : RespType → List Bytes → Reply
    aggregate : RespType → ℕ → Replies → Reply

  pub data Replies : Type 0 where
    nil : Replies
    cons : Reply → Replies → Replies

abbrev pub type_of : Reply → RespType
type_of (line t s) = t
type_of (blob t s) = t
type_of (stream t ss) = t
type_of (aggregate t n rs) = t

-- The byte that a reply of a type starts with.
unfoldable pub mark : RespType → ℕ
unfolding to_code
mark t = elim (to_code t) [ ok c ↦ c | crash e ↦ 0 ]

abbrev pub ended : Bytes → Bytes → Bytes
ended s rest = s ++ (b'\r' ∷ b'\n' ∷ rest)

abbrev pub parts : List Bytes → Bytes → Bytes
parts [] rest = b';' ∷ counted 0 rest
parts (s ∷ ss) rest = b';' ∷ counted (length s) (ended s (parts ss rest))

unfoldable mutual
  pub print : Reply → Bytes → Bytes
  print (line t s) rest = mark t ∷ ended s rest
  print (blob t s) rest = mark t ∷ counted (length s) (ended s rest)
  print (stream t ss) rest = mark t ∷ ended (b'?' ∷ []) (parts ss rest)
  print (aggregate t n rs) rest = mark t ∷ counted n (print_all rs rest)

  pub print_all : Replies → Bytes → Bytes
  print_all nil rest = rest
  print_all (cons r rs) rest = print r (print_all rs rest)

abbrev pub part_nodes : ℕ → List Bytes → List Node
part_nodes d [] = make_node streamed_string_part 1 d [] ∷ []
part_nodes d (s ∷ ss) = make_node streamed_string_part 1 d s ∷ part_nodes d ss

-- The nodes in pre-order, for a reply at depth `d`.
unfoldable mutual
  pub nodes : ℕ → Reply → List Node
  nodes d (line t s) = make_node t 1 d s ∷ []
  nodes d (blob t s) = make_node t 1 d s ∷ []
  nodes d (stream t ss) = make_node streamed_string 0 (d + 1) [] ∷ part_nodes (d + 1) ss
  nodes d (aggregate t n rs) = make_node t n d [] ∷ nodes_all (d + 1) rs

  pub nodes_all : ℕ → Replies → List Node
  nodes_all d nil = []
  nodes_all d (cons r rs) = nodes d r ++ nodes_all d rs

unfoldable pub count : Replies → ℕ
count nil = 0
count (cons r rs) = suc (count rs)

-- What a line of the type may hold.
abbrev pub IsLine : RespType → Bytes → Type 0
IsLine simple_string s = Unit
IsLine simple_error s = Unit
IsLine null s = Unit
IsLine number s = s ≢ []
IsLine doublean s = s ≢ []
IsLine big_number s = s ≢ []
IsLine boolean [] = ⊥
IsLine boolean (c ∷ s) = (c ≡ b't') ⊎ (c ≡ b'f')
IsLine _ s = ⊥

abbrev pub IsBlob : RespType → Type 0
IsBlob blob_string = Unit
IsBlob blob_error = Unit
IsBlob verbatim_string = Unit
IsBlob _ = ⊥

-- A reply that the protocol allows at depth `d`, nested no deeper than `max_embedded_depth`: a line
-- holds no carriage return, the parts of a stream are not empty, and an aggregate has as many
-- elements as it announces.
unfoldable mutual
  pub Fits : ℕ → Reply → Type 0
  Fits d (line t s) = IsLine t s × All (λ c. c ≢ b'\r') s
  Fits d (blob t s) = IsBlob t
  Fits d (stream t ss) = IsBlob t × (d < max_embedded_depth) × All (λ s. s ≢ []) ss
  Fits d (aggregate t n rs) =
      (is_aggregate t ≡ true)
      × (count rs ≡ n * element_multiplicity t)
      × ((n ≡ 0) ⊎ (d < max_embedded_depth))
      × FitsAll (d + 1) rs

  pub FitsAll : ℕ → Replies → Type 0
  FitsAll d nil = Unit
  FitsAll d (cons r rs) = Fits d r × FitsAll d rs
