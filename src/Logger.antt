-- ===== src/Logger.antt =====
-- logger.hpp and impl/logger.ipp: what a logger writes to std::clog.
--
-- `message` is `error_code::message`, an endpoint is given as it is printed, and std::endl is a newline.
pub mod Examples
use aedis.Prelude.{
  ℕ, ◌≡◌, refl, Bool, true, false, Option, none, some, List, [], ◌∷◌, ◌++◌, ltb, if◌then◌else◌,
  length,
}
use aedis.Prelude.Bytes.{Bytes, codes, to_string}
use aedis.Error.{Code}
use aedis.Adapter.{value, error}
use aedis.Response.{GenericResponse}

pub data Level : Type 0 where
  disabled emerg alert crit err warning notice info debug : Level

abbrev pub rank : Level → ℕ
rank disabled = 0
rank emerg = 1
rank alert = 2
rank crit = 3
rank err = 4
rank warning = 5
rank notice = 6
rank info = 7
rank debug = 8

pub record Logger : Type 0 where
  pub level : Level
  pub prefix : Bytes

abbrev pub set_prefix : Bytes → Logger → Logger
set_prefix p l = record l { prefix = p }

abbrev pub write_prefix : Logger → Bytes
write_prefix l = l.prefix

abbrev newline : Bytes
newline = 10 ∷ []

-- A text behind the prefix, from a level on.
abbrev pub at_level : Level → Logger → Bytes → Bytes
at_level v l text = if ltb (rank l.level) (rank v) then [] else write_prefix l ++ text

abbrev pub more_endpoints : List Bytes → Bytes
more_endpoints [] = []
more_endpoints (ep ∷ eps) = codes ", " ++ ep ++ more_endpoints eps

module _ (message : Option Code → Bytes) where
  unfoldable pub on_resolve : Option Code → List Bytes → Logger → Bytes
  on_resolve (some ec) res l =
      at_level info l
        (codes "run-all-op: resolve addresses " ++ message (some ec) ++ newline ++ newline)
  on_resolve none [] l = at_level info l (codes "run-all-op: resolve addresses ")
  on_resolve none (ep ∷ eps) l =
      at_level info l
        (codes "run-all-op: resolve addresses " ++ ep ++ more_endpoints eps ++ newline)

  unfoldable pub on_connect : Option Code → Bytes → Logger → Bytes
  on_connect (some ec) ep l =
      at_level info l
        (codes "run-all-op: connected to endpoint " ++ message (some ec) ++ newline ++ newline)
  on_connect none ep l =
      at_level info l (codes "run-all-op: connected to endpoint " ++ ep ++ newline)

  unfoldable pub on_ssl_handshake : Option Code → Logger → Bytes
  on_ssl_handshake ec l = at_level info l (codes "Runner: SSL handshake " ++ message ec ++ newline)

  unfoldable pub on_connection_lost : Option Code → Logger → Bytes
  on_connection_lost (some ec) l =
      at_level info l (codes "Connection lost: " ++ message (some ec) ++ newline)
  on_connection_lost none l = at_level info l (codes "Connection lost." ++ newline)

  unfoldable pub on_write : Option Code → Bytes → Logger → Bytes
  on_write (some ec) payload l =
      at_level info l (codes "writer-op: " ++ message (some ec) ++ newline)
  on_write none payload l =
      at_level info l
        (codes "writer-op: " ++ to_string (length payload) ++ codes " bytes written." ++ newline)

  unfoldable pub on_read : Option Code → ℕ → Logger → Bytes
  on_read (some ec) n l = at_level info l (codes "reader-op: " ++ message (some ec) ++ newline)
  on_read none n l =
      at_level info l (codes "reader-op: " ++ to_string n ++ codes " bytes read." ++ newline)

  unfoldable pub on_run : Option Code → Option Code → Logger → Bytes
  on_run reader_ec writer_ec l = at_level info l (
      codes "run-op: "
      ++ message reader_ec
      ++ codes " (reader), "
      ++ message writer_ec
      ++ codes " (writer)"
      ++ newline)

  abbrev pub diagnostic_of : GenericResponse → Bytes
  diagnostic_of (value ns) = []
  diagnostic_of (error t d) = codes " (" ++ d ++ codes ")"

  unfoldable pub on_hello : Option Code → GenericResponse → Logger → Bytes
  on_hello (some ec) resp l =
      at_level info l (codes "hello-op: " ++ message (some ec) ++ diagnostic_of resp ++ newline)
  on_hello none resp l = at_level info l (codes "hello-op: Success" ++ newline)

  unfoldable pub on_runner : Option Code → Option Code → Option Code → Logger → Bytes
  on_runner run_all_ec health_check_ec hello_ec l = at_level info l (
      codes "runner-op: "
      ++ message run_all_ec
      ++ codes " (async_run_all), "
      ++ message health_check_ec
      ++ codes " (async_health_check) "
      ++ message hello_ec
      ++ codes " (async_hello)."
      ++ newline)

  unfoldable pub on_check_health : Option Code → Option Code → Logger → Bytes
  on_check_health ping_ec timeout_ec l = at_level info l (
      codes "check-health-op: "
      ++ message ping_ec
      ++ codes " (async_ping), "
      ++ message timeout_ec
      ++ codes " (async_check_timeout)."
      ++ newline)

unfoldable pub trace : Bytes → Logger → Bytes
trace reason l = at_level debug l (reason ++ newline)
