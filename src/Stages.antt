-- ===== src/Stages.antt =====
-- detail/resolver.hpp, connector.hpp, handshaker.hpp and helper.hpp: the stages before a run, each a
-- race of an operation of Asio's against a timer.
--
-- `order` is which of the two completed first, `ec1` and `ec2` their error codes, and `cancelled` the
-- cancellation state of the coroutine. The calls of `cancel()` on a timer or a resolver are counted.
use aedis.Prelude.{ℕ, zero, suc, ◌+◌, Bool, true, false, ◌||◌, Option, none, some}
use aedis.Prelude.Run.{Run, ok, crash, assertion}
use aedis.Error.{
  Error, resolve_timeout, connect_timeout, ssl_handshake_timeout, Code, redis, operation_aborted,
}
use aedis.Connection.{Operation, resolve, connect, ssl_handshake, all}
use aedis.Config
use aedis.Config.{Address}

pub record Timer : Type 0 where
  pub expires_after : ℕ
  pub cancels : ℕ

abbrev pub cancel_timer : Timer → Timer
cancel_timer t = record t { cancels = t.cancels + 1 }

abbrev pub is_set_code : Option Code → Bool
is_set_code none = false
is_set_code (some ec) = true

-- `!!ec ? ec : asio::error::operation_aborted`
abbrev pub or_aborted : Option Code → Code
or_aborted none = operation_aborted
or_aborted (some ec) = ec

-- The condition of BOOST_REDIS_CHECK_OP0.
abbrev pub must_stop : Option Code → Bool → Bool
must_stop ec cancelled = is_set_code ec || cancelled

abbrev pub or_timeout : Error → Option Code → Code
or_timeout e none = redis e
or_timeout e (some ec) = ec

-- `R` is the type of the resolver's results.
pub record Resolver (R : Type 0) : Type 0 where
  pub timer : Timer
  pub addr : Address
  pub timeout : ℕ
  pub results : R
  pub resolver_cancels : ℕ

module _ {R : Type 0} where
  unfoldable pub resolve_start : Resolver R → Resolver R
  resolve_start r = record r { timer = record r.timer { expires_after = r.timeout } }

  -- `resolve_op` behind its group.
  unfoldable pub resolve_done :
      Bool → ℕ → Option Code → R → Option Code → Resolver R → Run (Resolver R × Option Code)
  resolve_done true order ec1 res ec2 r = ok (r, some operation_aborted)
  resolve_done false zero ec1 res ec2 r = ok (record r { results = res }, ec1)
  resolve_done false (suc zero) ec1 res ec2 r = ok (r, some (or_timeout resolve_timeout ec2))
  resolve_done false (suc (suc n)) ec1 res ec2 r = crash assertion

  unfoldable pub cancel_resolver : Operation → Resolver R → Resolver R
  cancel_resolver resolve r = record r {
    timer = cancel_timer r.timer;
    resolver_cancels = r.resolver_cancels + 1;
  }
  cancel_resolver all r = record r {
    timer = cancel_timer r.timer;
    resolver_cancels = r.resolver_cancels + 1;
  }
  cancel_resolver _ r = r

  unfoldable pub configure_resolver : Config.Config → Resolver R → Resolver R
  configure_resolver cfg r = record r { addr = cfg.addr; timeout = cfg.resolve_timeout }

-- `E` is the type of an endpoint.
pub record Connector (E : Type 0) : Type 0 where
  pub timer : Timer
  pub timeout : ℕ
  pub endpoint : E

module _ {E : Type 0} where
  unfoldable pub connect_start : Connector E → Connector E
  connect_start c = record c { timer = record c.timer { expires_after = c.timeout } }

  -- `connect_op` behind its group.
  unfoldable pub connect_done :
      Bool → ℕ → Option Code → E → Option Code → Connector E → Run (Connector E × Option Code)
  connect_done true order ec1 ep ec2 c = ok (c, some operation_aborted)
  connect_done false zero ec1 ep ec2 c = ok (record c { endpoint = ep }, ec1)
  connect_done false (suc zero) ec1 ep ec2 c = ok (c, some (or_timeout connect_timeout ec2))
  connect_done false (suc (suc n)) ec1 ep ec2 c = crash assertion

  unfoldable pub cancel_connector : Operation → Connector E → Connector E
  cancel_connector connect c = record c { timer = cancel_timer c.timer }
  cancel_connector all c = record c { timer = cancel_timer c.timer }
  cancel_connector _ c = c

  unfoldable pub configure_connector : Config.Config → Connector E → Connector E
  configure_connector cfg c = record c { timeout = cfg.connect_timeout }

pub record Handshaker : Type 0 where
  pub timer : Timer
  pub timeout : ℕ

unfoldable pub handshake_start : Handshaker → Handshaker
handshake_start h = record h { timer = record h.timer { expires_after = h.timeout } }

-- `handshake_op` behind its group.
unfoldable pub handshake_done : Bool → ℕ → Option Code → Option Code → Run (Option Code)
handshake_done true order ec1 ec2 = ok (some operation_aborted)
handshake_done false zero ec1 ec2 = ok ec1
handshake_done false (suc zero) ec1 ec2 = ok (some (or_timeout ssl_handshake_timeout ec2))
handshake_done false (suc (suc n)) ec1 ec2 = crash assertion

unfoldable pub cancel_handshaker : Operation → Handshaker → Handshaker
cancel_handshaker ssl_handshake h = record h { timer = cancel_timer h.timer }
cancel_handshaker all h = record h { timer = cancel_timer h.timer }
cancel_handshaker _ h = h

unfoldable pub configure_handshaker : Config.Config → Handshaker → Handshaker
configure_handshaker cfg h = record h { timeout = cfg.ssl_handshake_timeout }
