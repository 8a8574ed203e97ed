-- ===== src/Request/Wire.antt =====
-- What a request holds after its commands were pushed.
use aedis.Prelude.{
  ℕ, suc, ◌+◌, ◌*◌, ◌<◌, ◌≡◌, refl, sym, ap, ◌∙◌, List, [], ◌∷◌, ◌++◌, append_assoc, append-nil,
  map, arith, length, length-append, word, word_mod, Bool-cases, inl, inr, if◌then◌else◌,
}
use aedis.Prelude.Bytes.{Bytes, bytes_eq, codes}
use aedis.Prelude.Run.{ok}
use aedis.Resp3.Serialization.{Value, Element, value_element, pair_element, add_tuple, add_pair}
use aedis.Resp3.Serialization.Wire.{
  counted, bulk, bulks, command, bulks-append, boost_redis_to_bulk-bulk, add_header_array, printed,
  add_value-bulk,
}
use aedis.Request.{Request, has_response, check_cmd, push, add_each, push_range_key, push_range}

pub length-map : {A B : Type 0} (f : A → B) (xs : List A) → length (map f xs) ≡ length xs
length-map f [] = refl
length-map f (x ∷ xs) = ap suc (length-map f xs)

pub add_tuple-bulks :
    (payload : Bytes) (vs : List Value)
    → add_tuple payload vs ≡ ok (payload ++ bulks (map printed vs) [])
unfolding add_tuple
add_tuple-bulks payload [] = ap ok (sym (append-nil payload))
add_tuple-bulks payload (v ∷ vs) =
    rw (add_value-bulk payload v, add_tuple-bulks (payload ++ bulk (printed v) []) vs, append_assoc)
      (ap (λ x. ok (payload ++ x)) (bulks-append (printed v ∷ []) [] (bulks (map printed vs) [])))

-- The payload behind a header, the command's name and more bulk strings.
pub counted-bulks :
    (payload : Bytes) (n : ℕ) (x : Bytes) (xs : List Bytes)
    → ((payload ++ b'*' ∷ counted n []) ++ bulk x []) ++ bulks xs []
      ≡ payload ++ b'*' ∷ counted n (bulks (x ∷ xs) [])
counted-bulks payload n x xs = simp append_assoc

counted-bulks_key :
    (payload : Bytes) (n : ℕ) (x y : Bytes) (xs : List Bytes)
    → (((payload ++ b'*' ∷ counted n []) ++ bulk x []) ++ bulk y []) ++ bulks xs []
      ≡ payload ++ b'*' ∷ counted n (bulks (x ∷ y ∷ xs) [])
counted-bulks_key payload n x y xs = simp append_assoc

pub push-check_cmd :
    (r : Request) (cmd : Bytes) (args : List Value)
    → push r cmd args
      ≡ ok (check_cmd (record r { payload = r.payload ++ command (cmd ∷ map printed args) [] }) cmd)
unfolding push
push-check_cmd r cmd args =
    let count : 1 + length args ≡ length (cmd ∷ map printed args) =
      omega (arith, length-map printed args) in
    rw (
      add_header_array r.payload (1 + length args),
      boost_redis_to_bulk-bulk (r.payload ++ b'*' ∷ counted (1 + length args) []) cmd,
      add_tuple-bulks ((r.payload ++ b'*' ∷ counted (1 + length args) []) ++ bulk cmd []) args,
      counted-bulks r.payload (1 + length args) cmd (map printed args),
      count,
    )

-- `push` appends one command, the array of its name and its arguments, each as a bulk string, and
-- adds one to the commands of the request, and one to the expected responses unless `has_response`
-- tells that the command's responses are pushes, both modulo 2^64. After a HELLO the request has the
-- priority that its configuration gives to HELLO, and after another command the one it had.
pub push-command :
    (r : Request) (cmd : Bytes) (args : List Value)
    → push r cmd args
      ≡ ok (record {
        cfg = r.cfg;
        payload = r.payload ++ command (cmd ∷ map printed args) [];
        commands = word (r.commands + 1);
        expected_responses =
            if has_response cmd then r.expected_responses else word (r.expected_responses + 1);
        has_hello_priority =
            if bytes_eq cmd (codes "HELLO")
            then r.cfg.hello_with_priority
            else r.has_hello_priority;
      })
unfolding check_cmd
push-command r cmd args =
    push-check_cmd r cmd args
    ∙ elim (Bool-cases (has_response cmd)) [ inl e ↦ rw e refl | inr e ↦ rw e refl ]

abbrev pub spread : {T : Type 0} → (T → List Bytes) → List T → List Bytes
spread strings [] = []
spread strings (x ∷ xs) = strings x ++ spread strings xs

-- A range whose elements announce as many strings as they are written with, `strings x`.
pub record Announces {T : Type 0} (e : Element T) : Type 0 where
  pub strings : T → List Bytes
  pub add_bulk-bulks :
      (payload : Bytes) (x : T) → e.add_bulk payload x ≡ ok (payload ++ bulks (strings x) [])
  pub length-strings : (x : T) → length (strings x) ≡ e.size

unfoldable pub value_Announces : Announces value_element
value_Announces = record {
  strings = λ v. printed v ∷ [];
  add_bulk-bulks = add_value-bulk;
  length-strings = λ v. refl;
}

pub add_pair-bulks :
    (payload : Bytes) (x : Value × Value)
    → add_pair payload x ≡ ok (payload ++ bulks (printed x.0 ∷ printed x.1 ∷ []) [])
unfolding add_pair
add_pair-bulks payload x =
    rw
      (
        add_value-bulk payload x.0,
        add_value-bulk (payload ++ bulk (printed x.0) []) x.1,
        append_assoc,
      )
      (ap (λ y. ok (payload ++ y)) (bulks-append (printed x.0 ∷ []) [] (bulk (printed x.1) [])))

unfoldable pub pair_Announces : Announces pair_element
pair_Announces = record {
  strings = λ x. printed x.0 ∷ printed x.1 ∷ [];
  add_bulk-bulks = add_pair-bulks;
  length-strings = λ x. refl;
}

pub bulks-bulks : (xs ys : List Bytes) → bulks xs [] ++ bulks ys [] ≡ bulks (xs ++ ys) []
bulks-bulks [] ys = refl
bulks-bulks (x ∷ xs) ys =
    bulks-append (x ∷ xs) [] (bulks ys [])
    ∙ ap (bulk x) (sym (bulks-append xs [] (bulks ys [])) ∙ bulks-bulks xs ys)

module _ {T : Type 0} ⦃e : Element T⦄ (a : Announces e) where
  add_each-bulks :
      (payload : Bytes) (xs : List T)
      → add_each payload xs ≡ ok (payload ++ bulks (spread a.strings xs) [])
  unfolding add_each
  add_each-bulks payload [] = ap ok (sym (append-nil payload))
  add_each-bulks payload (x ∷ xs) =
      rw
        (
          a.add_bulk-bulks payload x,
          add_each-bulks (payload ++ bulks (a.strings x) []) xs,
          append_assoc,
        )
        (ap (λ y. ok (payload ++ y)) (bulks-bulks (a.strings x) (spread a.strings xs)))

  length-spread : (xs : List T) → length (spread a.strings xs) ≡ e.size * length xs
  length-spread [] = omega arith
  length-spread (x ∷ xs) = omega (
    arith,
    length-append (a.strings x) (spread a.strings xs),
    a.length-strings x,
    length-spread xs,
  )

  -- A range that is not empty, of elements written with as many strings as they announce, whose
  -- count fits in 64 bits: `push_range` appends one command, the array of the command's name and
  -- exactly these strings.
  pub push_range-command :
      (r : Request) (cmd : Bytes) (x : T) (xs : List T)
      → 1 + e.size * length (x ∷ xs) < word_mod
      → push_range r cmd (x ∷ xs)
        ≡ ok (
            check_cmd
              (record r { payload = r.payload ++ command (cmd ∷ spread a.strings (x ∷ xs)) [] })
              cmd)
  unfolding push_range
  push_range-command r cmd x xs h =
      let size = length-spread (x ∷ xs) in
      let count : word (1 + e.size * length (x ∷ xs)) ≡ length (cmd ∷ spread a.strings (x ∷ xs)) =
        omega arith in
      rw (
        count,
        add_header_array r.payload (length (cmd ∷ spread a.strings (x ∷ xs))),
        boost_redis_to_bulk-bulk
            (r.payload ++ b'*' ∷ counted (length (cmd ∷ spread a.strings (x ∷ xs))) []) cmd,
        add_each-bulks
            ((r.payload ++ b'*' ∷ counted (length (cmd ∷ spread a.strings (x ∷ xs))) [])
              ++ bulk cmd [])
            (x ∷ xs),
        counted-bulks r.payload (length (cmd ∷ spread a.strings (x ∷ xs))) cmd
            (spread a.strings (x ∷ xs)),
      )

  -- The same with a key, which stands between the command's name and the strings of the range.
  pub push_range_key-command :
      (r : Request) (cmd key : Bytes) (x : T) (xs : List T)
      → 2 + e.size * length (x ∷ xs) < word_mod
      → push_range_key r cmd key (x ∷ xs)
        ≡ ok (
            check_cmd
              (record r {
                payload = r.payload ++ command (cmd ∷ key ∷ spread a.strings (x ∷ xs)) [];
              })
              cmd)
  unfolding push_range_key
  push_range_key-command r cmd key x xs h =
      let ss = spread a.strings (x ∷ xs) in
      let size = length-spread (x ∷ xs) in
      let n = length (cmd ∷ key ∷ ss) in
      let count : word (2 + e.size * length (x ∷ xs)) ≡ n = omega arith in
      let head = r.payload ++ b'*' ∷ counted n [] in
      rw (
        count,
        add_header_array r.payload n,
        boost_redis_to_bulk-bulk head cmd,
        boost_redis_to_bulk-bulk (head ++ bulk cmd []) key,
        add_each-bulks ((head ++ bulk cmd []) ++ bulk key []) (x ∷ xs),
        counted-bulks_key r.payload n cmd key ss,
      )
