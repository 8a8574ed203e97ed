-- ===== src/Adapter/Traits.antt =====
-- adapter/detail/response_traits.hpp and adapter/ignore.hpp: which object takes the nodes of a
-- command's response.
--
-- The adapters of a `response<Ts...>` are a list, and `visit` is what std::visit calls on one of
-- them.
use aedis.Prelude.{ℕ, not, Option, none, some, List, ltb, if◌then◌else◌, length, set, word_mod, ◌-◌}
use aedis.Prelude.Run.{Run, ok, crash, assertion, at}
use aedis.Error.{Error, resp3_simple_error, resp3_blob_error, resp3_null}
use aedis.Resp3.Types.{RespType, null, simple_error, blob_error}
use aedis.Resp3.Node.{Node}

abbrev pub ignored : RespType → Option Error
ignored simple_error = some resp3_simple_error
ignored blob_error = some resp3_blob_error
ignored null = some resp3_null
ignored _ = none

-- `adapter::ignore::operator()`
abbrev pub ignore : Node → Option Error
ignore nd = ignored nd.data_type

-- `ignore_adapter::operator()`
abbrev pub ignore_adapter : ℕ → Node → Option Error
ignore_adapter i nd = ignored nd.data_type

-- `static_cast<std::size_t>(-1)`
abbrev pub any_response_size : ℕ
any_response_size = word_mod - 1

-- An exception of an adapter leaves the whole response.
abbrev pub place : {E : Type 0} → List E → ℕ → Run E → Run (List E)
place es i (ok e) = ok (set es i e)
place es i (crash f) = crash f

module _ {E : Type 0} (visit : E → Node → Run E × Option Error) where
  abbrev pub visit_at : List E → ℕ → Node → Run E → Run (List E) × Option Error
  visit_at es i nd (crash f) = (crash f, none)
  visit_at es i nd (ok e) = (place es i (visit e nd).0, (visit e nd).1)

  unfoldable pub static_adapter : ℕ → Run (List E) → Node → Run (List E) × Option Error
  static_adapter i (crash f) nd = (crash f, none)
  static_adapter i (ok es) nd =
      if not (ltb i (length es)) then (crash assertion, none) else visit_at es i nd (at es i)

  -- `static_adapter::get_supported_response_size`
  abbrev pub static_response_size : List E → ℕ
  static_response_size es = length es

  -- `vector_adapter::operator()`
  abbrev pub vector_adapter : ℕ → E → Node → Run E × Option Error
  vector_adapter i e nd = visit e nd

-- `wrapper::operator()`, for the object that receives server pushes.
abbrev pub first_response :
    {S : Type 0} → (ℕ → S → Node → S × Option Error) → S → Node → S × Option Error
first_response adapter s nd = adapter 0 s nd
