-- ===== src/Adapter/Replies.antt =====
-- Whole replies, and what the adapters make of them.
use aedis.Prelude.{
  ℕ, ◌+◌, ◌*◌, ◌≤◌, ◌<◌, ◌≡◌, refl, sym, ap, true, false, Option, none, List, [], ◌∷◌, ◌++◌,
  append_assoc, append-nil, length, map, All, arith, word, word_mod, ltb,
}
use aedis.Prelude.Bytes.{Bytes}
use aedis.Prelude.Run.{Run, ok, crash, error_access}
use aedis.Error.{Error}
use aedis.Resp3.Types.{array, is_aggregate, element_multiplicity}
use aedis.Resp3.Node.{Node}
use aedis.Resp3.Parser.{Parser, reset, finished, parse, parse_fuel, make_node}
use aedis.Resp3.Parser.Trace.{Takes}
use aedis.Resp3.Serialization.Wire.{command}
use aedis.Resp3.Serialization.Command.{element, Behind, length-command}
use aedis.Resp3.Serialization.Delivered.{reply_nodes, parse-reply_nodes}
use aedis.Adapter.Raising.{raising-Takes, wrapper-Absorbs}
use aedis.Adapter.{
  Result, value, error, string_bulk, is_error, general_aggregate, vector_impl, list_impl, wrapper,
  raising,
}

-- A vector of strings takes each string at its end.
vector-Takes :
    (max_size : ℕ) (v ss : List Bytes)
    → Takes
        (wrapper (vector_impl max_size))
        (ok (value v, tt))
        (map element ss)
        (ok (value (v ++ ss), tt))
unfolding wrapper vector_impl is_aggregate
vector-Takes max_size v [] = ap (λ x. ok (value x, tt)) (sym (append-nil v))
vector-Takes max_size v (s ∷ ss) =
    (refl, rw (← append_assoc v (s ∷ []) ss) (vector-Takes max_size (v ++ s ∷ []) ss))

list-Takes :
    (v ss : List Bytes)
    → Takes (wrapper list_impl) (ok (value v, tt)) (map element ss) (ok (value (v ++ ss), tt))
unfolding wrapper list_impl is_aggregate
list-Takes v [] = ap (λ x. ok (value x, tt)) (sym (append-nil v))
list-Takes v (s ∷ ss) = (refl, rw (← append_assoc v (s ∷ []) ss) (list-Takes (v ++ s ∷ []) ss))

vector_header :
    (max_size n : ℕ)
    → n ≤ max_size
    → n < word_mod
    → wrapper (vector_impl {A = Bytes} max_size) (ok (value [], tt)) (make_node array n 0 [])
      ≡ (ok (value [], tt), none)
unfolding wrapper vector_impl is_aggregate element_multiplicity
vector_header max_size n le bound =
    let room : ltb max_size (word (0 + word (1 * n))) ≡ false = ground arith in rw (room) refl

-- An array of one bulk string or more, in fewer than 2^64 bytes and with no more strings than a vector can
-- have, fills a `result<std::vector<std::string>>` with exactly its strings, in order.
pub vector-reply :
    (max_size : ℕ) (s : Bytes) (ss : List Bytes) (rest : Bytes)
    → length (command (s ∷ ss) rest) < word_mod
    → length (s ∷ ss) ≤ max_size
    → (q : Parser) × (parse
          (raising (wrapper (vector_impl max_size)))
          (parse_fuel (command (s ∷ ss) rest))
          reset
          (command (s ∷ ss) rest)
          (ok (value [], tt))
        ≡ ok (finished q (ok (value (s ∷ ss), tt)) none))
      × Behind q (command (s ∷ ss) rest) rest
vector-reply max_size s ss rest bound le =
    let header =
      vector_header max_size (length (s ∷ ss)) le (omega (arith, length-command (s ∷ ss) rest)) in
    parse-reply_nodes (raising (wrapper (vector_impl max_size))) (ok (value [], tt))
      (ok (value (s ∷ ss), tt)) s ss rest bound
      (raising-Takes (wrapper (vector_impl max_size)) (wrapper-Absorbs (vector_impl max_size))
        (reply_nodes (s ∷ ss)) (ok (value [], tt)) (value (s ∷ ss), tt)
        (ap (λ x. x.1) header, rw header (vector-Takes max_size [] (s ∷ ss))))

-- An array of one bulk string or more, in fewer than 2^64 bytes, fills a
-- `result<std::list<std::string>>` or a deque with exactly its strings, in order.
pub list-reply :
    (s : Bytes) (ss : List Bytes) (rest : Bytes)
    → length (command (s ∷ ss) rest) < word_mod
    → (q : Parser) × (parse
          (raising (wrapper list_impl))
          (parse_fuel (command (s ∷ ss) rest))
          reset
          (command (s ∷ ss) rest)
          (ok (value [], tt))
        ≡ ok (finished q (ok (value (s ∷ ss), tt)) none))
      × Behind q (command (s ∷ ss) rest) rest
unfolding wrapper list_impl is_aggregate
list-reply s ss rest bound =
    parse-reply_nodes (raising (wrapper list_impl)) (ok (value [], tt)) (ok (value (s ∷ ss), tt)) s
      ss rest bound
      (raising-Takes (wrapper list_impl) (wrapper-Absorbs list_impl) (reply_nodes (s ∷ ss))
        (ok (value [], tt)) (value (s ∷ ss), tt) (refl, list-Takes [] (s ∷ ss)))

-- What `general_aggregate` has after nodes behind an error: the second of them throws.
abbrev pub IsPlain : Node → Type 0
IsPlain nd = is_error nd.data_type ≡ false

plain-Takes :
    (acc ns : List Node)
    → All IsPlain ns
    → Takes general_aggregate (ok (value acc)) ns (ok (value (acc ++ ns)))
unfolding general_aggregate
plain-Takes acc [] h = ap (λ x. ok (value x)) (sym (append-nil acc))
plain-Takes acc (nd ∷ ns) (h, hs) =
    rw h (refl, rw (← append_assoc acc (nd ∷ []) ns) (plain-Takes (acc ++ nd ∷ []) ns hs))

crash-Takes :
    (ns : List Node) → Takes general_aggregate (crash error_access) ns (crash error_access)
unfolding general_aggregate
crash-Takes [] = refl
crash-Takes (nd ∷ ns) = (refl, crash-Takes ns)

abbrev pub after_error : Node → List Node → Run (Result (List Node))
after_error e [] = ok (error e.data_type e.value)
after_error e (nd ∷ ns) = crash error_access

error-Takes :
    (e : Node) (ns : List Node)
    → All IsPlain ns
    → Takes general_aggregate (ok (error e.data_type e.value)) ns (after_error e ns)
unfolding general_aggregate
error-Takes e [] h = refl
error-Takes e (nd ∷ ns) (h, hs) = rw h (refl, crash-Takes ns)

pub Takes-append :
    {A : Type 0} (adapter : A → Node → A × Option Error) (a b c : A) (ns ms : List Node)
    → Takes adapter a ns b
    → Takes adapter b ms c
    → Takes adapter a (ns ++ ms) c
Takes-append adapter a b c [] ms h k = rw h k
Takes-append adapter a b c (nd ∷ ns) ms (e, h) k =
    (e, Takes-append adapter (adapter a nd).0 b c ns ms h k)

-- A reply to a generic response with one RESP3 error in it, `e`: the result is that error if it is
-- the last node, but where other nodes follow it `result_->value()` throws at the first of them.
pub general_aggregate-error :
    (ns : List Node) (e : Node) (ms : List Node)
    → All IsPlain ns
    → is_error e.data_type ≡ true
    → All IsPlain ms
    → Takes general_aggregate (ok (value [])) (ns ++ e ∷ ms) (after_error e ms)
unfolding general_aggregate
general_aggregate-error ns e ms h x k =
    Takes-append general_aggregate (ok (value [])) (ok (value ns)) (after_error e ms) ns (e ∷ ms)
      (plain-Takes [] ns h) (rw x (refl, error-Takes e ms k))
