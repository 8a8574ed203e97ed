-- ===== src/Resp3/Types.antt =====
-- resp3/type.hpp and resp3/impl/type.ipp: the RESP3 data types and their wire codes.
use aedis.Prelude.{ℕ, Bool, true, false, ◌==◌, if◌then◌else◌, ◌≡◌, refl}
use aedis.Prelude.Bytes.{Bytes, codes}
use aedis.Prelude.Run.{Run, ok, crash, assertion, Ensures}

-- `enum class type`
pub data RespType : Type 0 where
  array push set map attribute simple_string simple_error number doublean boolean : RespType
  big_number null blob_error verbatim_string blob_string streamed_string : RespType
  streamed_string_part invalid : RespType

pub RespType-discrete : Discrete RespType
RespType-discrete = hlevel

unfoldable pub is_aggregate : RespType → Bool
is_aggregate array = true
is_aggregate push = true
is_aggregate set = true
is_aggregate map = true
is_aggregate attribute = true
is_aggregate _ = false

unfoldable pub element_multiplicity : RespType → ℕ
element_multiplicity map = 2
element_multiplicity attribute = 2
element_multiplicity _ = 1

-- The default case is an assertion.
unfoldable pub to_code : RespType → Run ℕ
to_code blob_error = ok b'!'
to_code verbatim_string = ok b'='
to_code blob_string = ok b'$'
to_code streamed_string_part = ok b';'
to_code simple_error = ok b'-'
to_code number = ok b':'
to_code doublean = ok b','
to_code boolean = ok b'#'
to_code big_number = ok b'('
to_code simple_string = ok b'+'
to_code null = ok b'_'
to_code push = ok b'>'
to_code set = ok b'~'
to_code array = ok b'*'
to_code attribute = ok b'|'
to_code map = ok b'%'
to_code _ = crash assertion

unfoldable pub to_type : ℕ → RespType
to_type c =
    if c == b'!'
    then blob_error
    else if c == b'='
    then verbatim_string
    else if c == b'$'
    then blob_string
    else if c == b';'
    then streamed_string_part
    else if c == b'-'
    then simple_error
    else if c == b':'
    then number
    else if c == b','
    then doublean
    else if c == b'#'
    then boolean
    else if c == b'('
    then big_number
    else if c == b'+'
    then simple_string
    else if c == b'_'
    then null
    else if c == b'>'
    then push
    else if c == b'~'
    then set
    else if c == b'*'
    then array
    else if c == b'|'
    then attribute
    else if c == b'%'
    then map
    else invalid

unfoldable pub type_name : RespType → Bytes
type_name array = codes "array"
type_name push = codes "push"
type_name set = codes "set"
type_name map = codes "map"
type_name attribute = codes "attribute"
type_name simple_string = codes "simple_string"
type_name simple_error = codes "simple_error"
type_name number = codes "number"
type_name doublean = codes "doublean"
type_name boolean = codes "boolean"
type_name big_number = codes "big_number"
type_name null = codes "null"
type_name blob_error = codes "blob_error"
type_name verbatim_string = codes "verbatim_string"
type_name blob_string = codes "blob_string"
type_name streamed_string = codes "streamed_string"
type_name streamed_string_part = codes "streamed_string_part"
type_name invalid = codes "invalid"

-- A type that has a wire code is read back from it.
pub to_code-to_type : (t : RespType) → Ensures (λ c. to_type c ≡ t) (to_code t)
unfolding to_code to_type
to_code-to_type blob_error = refl
to_code-to_type verbatim_string = refl
to_code-to_type blob_string = refl
to_code-to_type streamed_string_part = refl
to_code-to_type simple_error = refl
to_code-to_type number = refl
to_code-to_type doublean = refl
to_code-to_type boolean = refl
to_code-to_type big_number = refl
to_code-to_type simple_string = refl
to_code-to_type null = refl
to_code-to_type push = refl
to_code-to_type set = refl
to_code-to_type array = refl
to_code-to_type attribute = refl
to_code-to_type map = refl
to_code-to_type streamed_string = tt
to_code-to_type invalid = tt
