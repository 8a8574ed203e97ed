-- ===== src/Request/Tuples.antt =====
-- A range of tuples, whose fields are not counted.
use aedis.Prelude.{
  ℕ, ◌+◌, ◌*◌, ◌<◌, ◌≡◌, sym, ap, List, [], ◌∷◌, ◌++◌, append_assoc, append-nil, map, All, arith,
  length, length-append, word, word_mod,
}
use aedis.Prelude.Bytes.{Bytes}
use aedis.Prelude.Run.{ok}
use aedis.Resp3.Serialization.{Value, tuple_element}
use aedis.Resp3.Serialization.Wire.{
  counted, bulk, bulks, boost_redis_to_bulk-bulk, add_header_array, printed,
}
use aedis.Request.{Request, check_cmd, add_each, push_range}
use aedis.Request.Wire.{length-map, add_tuple-bulks, bulks-bulks, counted-bulks, spread}

-- The fields of all tuples.
abbrev pub fields : List (List Value) → List Bytes
fields ts = spread (map printed) ts

add_each-tuples :
    (payload : Bytes) (ts : List (List Value))
    → add_each payload ts ≡ ok (payload ++ bulks (fields ts) [])
unfolding add_each
add_each-tuples payload [] = ap ok (sym (append-nil payload))
add_each-tuples payload (t ∷ ts) =
    rw
      (
        add_tuple-bulks payload t,
        add_each-tuples (payload ++ bulks (map printed t) []) ts,
        append_assoc,
      )
      (ap (λ y. ok (payload ++ y)) (bulks-bulks (map printed t) (fields ts)))

length-fields :
    (n : ℕ) (ts : List (List Value))
    → All (λ t. length t ≡ n) ts
    → length (fields ts) ≡ n * length ts
length-fields n [] h = omega arith
length-fields n (t ∷ ts) (h, hs) =
    omega (
      arith,
      length-append (map printed t) (fields ts),
      length-map printed t,
      length-fields n ts hs,
    )

-- `push_range` with a range of tuples of `n` fields that is not empty, and whose length fits in 64 bits:
-- the header announces a string for each tuple and one for the command, but what follows it are a string
-- for each field and one for the command.
pub push_range-tuples :
    (r : Request) (cmd : Bytes) (n : ℕ) (t : List Value) (ts : List (List Value))
    → 1 + length (t ∷ ts) < word_mod
    → All (λ t. length t ≡ n) (t ∷ ts)
    → (push_range r cmd (t ∷ ts)
        ≡ ok (
            check_cmd
              (record r {
                payload =
                    r.payload
                    ++ b'*' ∷ counted (1 + length (t ∷ ts)) (bulks (cmd ∷ fields (t ∷ ts)) []);
              })
              cmd))
      × (length (cmd ∷ fields (t ∷ ts)) ≡ 1 + n * length (t ∷ ts))
unfolding push_range
push_range-tuples r cmd n t ts h each =
    let m = 1 + length (t ∷ ts) in
    let count : word (1 + 1 * length (t ∷ ts)) ≡ m = omega arith in
    (
      rw (
        count,
        add_header_array r.payload m,
        boost_redis_to_bulk-bulk (r.payload ++ b'*' ∷ counted m []) cmd,
        add_each-tuples ((r.payload ++ b'*' ∷ counted m []) ++ bulk cmd []) (t ∷ ts),
        counted-bulks r.payload m cmd (fields (t ∷ ts)),
      ),
      omega (arith, length-fields n (t ∷ ts) each),
    )
