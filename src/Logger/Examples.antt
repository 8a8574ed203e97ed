-- ===== src/Logger/Examples.antt =====
-- Lines of a log.
use aedis.Prelude.{◌≡◌, refl, Option, none, some, [], ◌++◌}
use aedis.Prelude.Bytes.{Bytes, codes, to_string}
use aedis.Error.{connect_timeout, error_message, Code, redis, operation_aborted, system}
use aedis.Logger.{Logger, info, notice, on_connect, on_resolve, on_read}

-- `message` of an error code, for the library's own.
abbrev message_of : Option Code → Bytes
message_of none = codes "Success"
message_of (some (redis e)) = error_message e
message_of (some operation_aborted) = codes "Operation canceled"
message_of (some (system n)) = codes "system:" ++ to_string n

abbrev chatty : Logger
chatty = record { level = info; prefix = codes "(Boost.Redis) " }

abbrev taciturn : Logger
taciturn = record { level = notice; prefix = codes "(Boost.Redis) " }

read_line : on_read message_of none 12 chatty ≡ codes "(Boost.Redis) reader-op: 12 bytes read.\n"
unfolding on_read to_string
read_line = refl

nothing_below_info : on_read message_of none 12 taciturn ≡ []
unfolding on_read
nothing_below_info = refl

-- The line is ended twice.
failed_connect :
    on_connect message_of (some (redis connect_timeout)) [] chatty
    ≡ codes "(Boost.Redis) run-all-op: connected to endpoint Connect timeout.\n\n"
unfolding on_connect error_message
failed_connect = refl

-- The line is not ended.
no_addresses :
    on_resolve message_of none [] chatty ≡ codes "(Boost.Redis) run-all-op: resolve addresses "
unfolding on_resolve
no_addresses = refl
