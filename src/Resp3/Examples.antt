-- ===== src/Resp3/Examples.antt =====
-- The wire codes at one type.
use aedis.Prelude.{◌≡◌}
use aedis.Prelude.Run.{Ensures}
use aedis.Resp3.Types.{attribute, to_code, to_type, to_code-to_type}

attribute_back : Ensures (λ c. to_type c ≡ attribute) (to_code attribute)
attribute_back = to_code-to_type attribute
