-- ===== src/Config.antt =====
-- config.hpp: what a user configures. A duration is a number of ticks of the clock.
use aedis.Prelude.{ℕ, ◌*◌, Bool, false, Option, some, []}
use aedis.Prelude.Bytes.{Bytes, codes}
use aedis.Resp3.Serialization.{ℤ, pos}

pub record Address : Type 0 where
  pub host : Bytes
  pub port : Bytes

pub record Config : Type 0 where
  pub use_ssl : Bool
  pub addr : Address
  pub username : Bytes
  pub password : Bytes
  pub clientname : Bytes
  pub database_index : Option ℤ
  pub health_check_id : Bytes
  pub log_prefix : Bytes
  pub resolve_timeout : ℕ
  pub connect_timeout : ℕ
  pub ssl_handshake_timeout : ℕ
  pub health_check_interval : ℕ
  pub reconnect_wait_interval : ℕ

-- `std::chrono::seconds` as a `steady_clock::duration`, in nanoseconds.
abbrev pub seconds : ℕ → ℕ
seconds n = n * 1000000000

-- `config{}`
abbrev pub default_config : Config
default_config = record {
  use_ssl = false;
  addr = record { host = codes "127.0.0.1"; port = codes "6379" };
  username = codes "default";
  password = [];
  clientname = codes "Boost.Redis";
  database_index = some (pos 0);
  health_check_id = codes "Boost.Redis";
  log_prefix = codes "(Boost.Redis) ";
  resolve_timeout = seconds 10;
  connect_timeout = seconds 10;
  ssl_handshake_timeout = seconds 10;
  health_check_interval = seconds 2;
  reconnect_wait_interval = seconds 1;
}
