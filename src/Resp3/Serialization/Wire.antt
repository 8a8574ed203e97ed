-- ===== src/Resp3/Serialization/Wire.antt =====
-- The bytes of a command, as a specification that the writers are compared with.
use aedis.Prelude.{ℕ, ◌≡◌, refl, ap, ◌∙◌, List, [], ◌∷◌, ◌++◌, append_assoc, length}
use aedis.Prelude.Bytes.{Bytes, to_string}
use aedis.Prelude.Run.{ok}
use aedis.Resp3.Types.{array, to_code}
use aedis.Resp3.Serialization.{
  boost_redis_to_bulk, add_header, Value, text, integral, to_string_int, add_value,
}

-- A number and its separator, a bulk string, and a sequence of bulk strings.
abbrev pub counted : ℕ → Bytes → Bytes
counted n rest = to_string n ++ (b'\r' ∷ b'\n' ∷ rest)

abbrev pub bulk : Bytes → Bytes → Bytes
bulk s rest = b'$' ∷ counted (length s) (s ++ (b'\r' ∷ b'\n' ∷ rest))

abbrev pub bulks : List Bytes → Bytes → Bytes
bulks [] rest = rest
bulks (s ∷ ss) rest = bulk s (bulks ss rest)

-- The array of the bulk strings `ss`.
abbrev pub command : List Bytes → Bytes → Bytes
command ss rest = b'*' ∷ counted (length ss) (bulks ss rest)

pub bulk-append : (s x y : Bytes) → bulk s x ++ y ≡ bulk s (x ++ y)
bulk-append s x y = simp append_assoc

pub bulks-append : (ss : List Bytes) (x y : Bytes) → bulks ss x ++ y ≡ bulks ss (x ++ y)
bulks-append [] x y = refl
bulks-append (s ∷ ss) x y = bulk-append s (bulks ss x) y ∙ ap (bulk s) (bulks-append ss x y)

pub boost_redis_to_bulk-bulk :
    (payload s : Bytes) → boost_redis_to_bulk payload s ≡ ok (payload ++ bulk s [])
unfolding boost_redis_to_bulk
boost_redis_to_bulk-bulk payload s = ap ok (simp append_assoc)

pub add_header_array :
    (payload : Bytes) (n : ℕ) → add_header payload array n ≡ ok (payload ++ b'*' ∷ counted n [])
unfolding add_header to_code
add_header_array payload n = ap ok (simp append_assoc)

-- The string that an argument is sent as.
abbrev pub printed : Value → Bytes
printed (text s) = s
printed (integral n) = to_string_int n

pub add_value-bulk :
    (payload : Bytes) (v : Value) → add_value payload v ≡ ok (payload ++ bulk (printed v) [])
unfolding add_value
add_value-bulk payload (text s) = boost_redis_to_bulk-bulk payload s
add_value-bulk payload (integral n) = boost_redis_to_bulk-bulk payload (to_string_int n)
