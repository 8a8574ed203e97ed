-- ===== src/Resp3/Node.antt =====
-- resp3/node.hpp: a node of the response tree.
use aedis.Prelude.{ℕ, []}
use aedis.Prelude.Bytes.{Bytes}
use aedis.Resp3.Types.{RespType, invalid}

pub record Node : Type 0 where
  pub data_type : RespType
  pub aggregate_size : ℕ
  pub depth : ℕ
  pub value : Bytes

-- The member initialisers of `basic_node`.
abbrev pub default_node : Node
default_node = record { data_type = invalid; aggregate_size = 0; depth = 0; value = [] }
