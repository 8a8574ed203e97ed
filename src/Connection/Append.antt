-- ===== src/Connection/Append.antt =====
-- `append_some_op` and `receive` (detail/connection_base.hpp).
--
-- The buffer is Asio's dynamic buffer over a std::string: `grow` throws std::length_error where its
-- bytes would be more than `max_size`, and appends null bytes otherwise; `shrink` takes bytes off the end.
use aedis.Prelude.{
  ℕ, zero, suc, ◌+◌, ◌-◌, ◌≤◌, ◌≡◌, refl, ap, Option, none, some, [], ◌∷◌, ◌++◌, ltb, if◌then◌else◌,
  length, length-append, Bool-cases, inl, inr, take, drop, take-length, arith,
}
use aedis.Prelude.Bytes.{Bytes}
use aedis.Prelude.Run.{Run, ok, crash, length_error, ◌>>=◌}
use aedis.Error.{sync_receive_push_failed, Code, redis}

abbrev pub zeros : ℕ → Bytes
zeros zero = []
zeros (suc n) = 0 ∷ zeros n

abbrev pub grow : ℕ → ℕ → Bytes → Run Bytes
grow max_size n buf =
    if ltb max_size (length buf + n) then crash length_error else ok (buf ++ zeros n)

abbrev pub shrink : ℕ → Bytes → Bytes
shrink n buf = take (length buf - n) buf

-- `append_some_op` up to its read.
unfoldable pub append_start : ℕ → ℕ → Bytes → Run Bytes
append_start max_size size buf = grow max_size size buf

-- Where the buffer has room, it grows.
pub append_start-fits :
    (max_size size : ℕ) (buf : Bytes)
    → length buf + size ≤ max_size
    → append_start max_size size buf ≡ ok (buf ++ zeros size)
unfolding append_start
append_start-fits max_size size buf room = ground (arith, room)

-- What `async_read_some` puts in the buffer behind its first `tmp` bytes.
abbrev pub fill : ℕ → Bytes → Bytes → Bytes
fill tmp more buf = take tmp buf ++ more ++ drop (tmp + length more) buf

-- Behind the read of `more`: the buffer, and what the operation completes with.
unfoldable pub append_done : ℕ → Option Code → Bytes → Bytes → Bytes × Option Code × ℕ
append_done tmp (some ec) more buf = (buf, some ec, 0)
append_done tmp none more buf =
    let buf' = fill tmp more buf in
    (shrink (length buf' - tmp - length more) buf', none, length more)

-- `receive`; `pending` is what the receive channel has, and `ec` what the caller's error code was.
unfoldable pub receive_sync : Option (Option Code × ℕ) → Option Code → Option Code × ℕ
receive_sync (some (some e, n)) ec = (some e, 0)
receive_sync (some (none, n)) ec = (none, n)
receive_sync none (some e) = (some e, 0)
receive_sync none none = (some (redis sync_receive_push_failed), 0)

appended :
    (buf more zs : Bytes)
    → let b = fill (length buf) more (buf ++ zs) in
      shrink (length b - length buf - length more) b ≡ buf ++ more
appended buf more zs =
    let rest = drop (length buf + length more) (buf ++ zs) in
    let size : length (buf ++ more ++ rest) ≡ length buf + length more + length rest =
      omega (arith, length-append (buf ++ more) rest, length-append buf more) in
    let cut : length (buf ++ more ++ rest)
          - (length (buf ++ more ++ rest) - length buf - length more)
        ≡ length (buf ++ more) =
      omega (arith, size, length-append buf more) in
    rw (take-length buf zs) (rw cut (take-length (buf ++ more) rest))

-- Where the buffer has room for what is asked, a read appends exactly what was received, and one that fails
-- leaves as many null bytes behind the buffer as it asked for; where it has none, `grow` throws.
pub append_some-appends :
    (max_size size : ℕ) (buf more : Bytes) (ec : Code)
    → ((append_start max_size size buf >>= λ b. ok (append_done (length buf) none more b)) ≡ (
        if ltb max_size (length buf + size)
        then crash length_error
        else ok (buf ++ more, none, length more)))
      × ((append_start max_size size buf >>= λ b. ok (append_done (length buf) (some ec) more b))
          ≡ (if ltb max_size (length buf + size)
              then crash length_error
              else ok (buf ++ zeros size, some ec, 0)))
unfolding append_start append_done
append_some-appends max_size size buf more ec =
    elim (Bool-cases (ltb max_size (length buf + size))) [
      | inl e ↦ rw e (refl, refl)
      | inr e ↦ rw e (ap (λ b. ok (b, none, length more)) (appended buf more (zeros size)), refl)
    ]
