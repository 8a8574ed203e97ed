-- ===== src/Response.antt =====
-- response.hpp and impl/response.ipp: taking one response from a generic response.
pub mod Consume
pub mod Examples
use aedis.Prelude.{ℕ, Bool, not, Option, none, some, List, [], ◌∷◌, ◌==◌, if◌then◌else◌, drop_while}
use aedis.Prelude.Run.{Run, ok, crash}
use aedis.Error.{Error, incompatible_node_depth}
use aedis.Resp3.Node.{Node}
use aedis.Adapter.{Result, value, error}

abbrev pub GenericResponse : Type 0
GenericResponse = Result (List Node)

abbrev pub is_at_depth : ℕ → Node → Bool
is_at_depth depth e = e.depth == depth

-- `std::find_if(next(begin), end, f)`, and what stands from there on.
abbrev pub from_next : ℕ → List Node → List Node
from_next depth ns = drop_while (λ e. not (is_at_depth depth e)) ns

unfoldable pub consume_one : GenericResponse → GenericResponse × Option Error
consume_one (error t d) = (error t d, none)
consume_one (value []) = (value [], none)
consume_one (value (nd ∷ ns)) =
    if not (nd.depth == 0)
    then (value (nd ∷ ns), some incompatible_node_depth)
    else (value (from_next nd.depth ns), none)
