-- ===== src/Response/Consume.antt =====
-- `consume_one` against the messages that were read into the response.
use aedis.Prelude.{
  ℕ, ◌<◌, ◌≡◌, refl, ap, ◌⊎◌, inl, inr, true, false, not, Option, none, some, List, [], ◌∷◌, ◌++◌,
  All, arith, ◌==◌, length, word_mod, Bool-cases,
}
use aedis.Prelude.Bytes.{Bytes}
use aedis.Error.{Error, incompatible_node_depth}
use aedis.Resp3.Types.{streamed_string}
use aedis.Resp3.Node.{Node}
use aedis.Resp3.Parser.{reset}
use aedis.Resp3.Parser.Trace.{trace}
use aedis.Resp3.Parser.Messages.{IsDeep, IsMessage, trace-IsMessage}
use aedis.Adapter.{value}
use aedis.Response.{GenericResponse, from_next, consume_one}

-- Another message follows, or nothing.
abbrev pub StartsAtRoot : List Node → Type 0
StartsAtRoot [] = Unit
StartsAtRoot (nd ∷ ns) = nd.depth ≡ 0

from_next-root : (rest : List Node) → StartsAtRoot rest → from_next 0 rest ≡ rest
from_next-root [] h = refl
from_next-root (nd ∷ ns) h = let e : not (nd.depth == 0) ≡ false = ground arith in rw e

from_next-append :
    (ns rest : List Node) → All IsDeep ns → StartsAtRoot rest → from_next 0 (ns ++ rest) ≡ rest
from_next-append [] rest h r = from_next-root rest r
from_next-append (nd ∷ ns) rest (h, hs) r =
    let e : not (nd.depth == 0) ≡ true = ground arith in rw e (from_next-append ns rest hs r)

consume_one-message :
    (nd : Node) (ns rest : List Node)
    → nd.depth ≡ 0
    → All IsDeep ns
    → StartsAtRoot rest
    → consume_one (value (nd ∷ ns ++ rest)) ≡ (value rest, none)
unfolding consume_one
consume_one-message nd ns rest z h r =
    let e : not (nd.depth == 0) ≡ false = ground arith in
    rw (e, z) (ap (λ x. (value x, none)) (from_next-append ns rest h r))

consume_one-below :
    (nd : Node) (ns : List Node)
    → 0 < nd.depth
    → consume_one (value (nd ∷ ns)) ≡ (value (nd ∷ ns), some incompatible_node_depth)
unfolding consume_one
consume_one-below nd ns h = let e : not (nd.depth == 0) ≡ true = ground arith in rw e

-- What is left behind the nodes of one message in front of `rest`.
abbrev pub Consumed : List Node → List Node → GenericResponse × Option Error → Type 0
Consumed [] rest r = Unit
Consumed (nd ∷ ns) rest r =
    ((nd.depth ≡ 0) × (r ≡ (value rest, none)))
    ⊎ ((nd.data_type ≡ streamed_string)
        × (r ≡ (value (nd ∷ ns ++ rest), some incompatible_node_depth)))

consumed :
    (ns rest : List Node)
    → IsMessage ns
    → StartsAtRoot rest
    → Consumed ns rest (consume_one (value (ns ++ rest)))
consumed [] rest m r = tt
consumed (nd ∷ ns) rest (inl z, h) r = inl (z, consume_one-message nd ns rest z h r)
consumed (nd ∷ ns) rest (inr t, h) r = elim (Bool-cases (nd.depth == 0)) [
  | inl z ↦ let z' : nd.depth ≡ 0 = ground arith in inl (z', consume_one-message nd ns rest z' h r)
  | inr d ↦ let d' : 0 < nd.depth = ground arith in inr (t, consume_one-below nd (ns ++ rest) d')
]

-- A generic response that starts with the nodes of a message, read by a fresh parser from a view
-- of fewer than 2^64 bytes, in front of those of other messages, the first of which, if there is
-- one, starts at the root: `consume_one` takes exactly the message, or, where it is a streamed
-- string below the root, takes nothing and reports `incompatible_node_depth`.
pub consume_one-trace :
    (view : Bytes) (fuel : ℕ) (rest : List Node)
    → length view < word_mod
    → StartsAtRoot rest
    → Consumed
        (trace fuel reset view).0
        rest
        (consume_one (value ((trace fuel reset view).0 ++ rest)))
consume_one-trace view fuel rest bound r =
    consumed (trace fuel reset view).0 rest (trace-IsMessage view fuel bound) r
