-- ===== src/Connection/Answered/Calls.antt =====
-- Requests that `async_exec` starts one behind the other (`exec_op` of
-- detail/connection_base.hpp).
use aedis.Prelude.{
  ℕ, suc, ◌+◌, ◌<◌, ◌≡◌, refl, ap, ◌∙◌, true, false, Option, List, [], ◌∷◌, ◌++◌, append_assoc,
  append-nil, All, arith, length, inl, inr, Bool-cases,
}
use aedis.Prelude.Bytes.{Bytes}
use aedis.Error.{Failure}
use aedis.Request.{Request}
use aedis.Resp3.Node.{Node}
use aedis.Resp3.Parser.{reset}
use aedis.Resp3.Reply.{Reply}
use aedis.Connection.{Usage, ReqInfo, Connection}
use aedis.Connection.Queue.{mark_written, make_info, enqueue, add_request_info}
use aedis.Connection.Exec.{ExecResult, complete, wait, exec_start}
use aedis.Connection.Answered.{Fills, Exchange, IsExchange, IsResponse}

module _ {R S : Type 0} where
  -- One async_exec behind the other, with no other event between them.
  unfoldable pub start_all : List (ReqInfo R) → Connection R S → ExecResult R S
  start_all [] c = wait c
  start_all (ri ∷ ris) c = elim (exec_start ri c) [
    | complete d ec n ↦ complete d ec n
    | wait d ↦ start_all ris d
  ]

  -- Between two messages, with this queue and these bytes to write.
  abbrev pub with_queue : Connection R S → ℕ → Usage → List (ReqInfo R) → Bytes → Connection R S
  with_queue c wakes usage reqs buffer = record c {
    reqs = reqs;
    write_buffer = buffer;
    read_buffer = [];
    parser = reset;
    on_push = false;
    writer_wakes = wakes;
    usage = usage;
  }

module _ {R : Type 0} (adapt : ℕ → R → Node → R × Option Failure) where
  -- A request with its response object, and what the server replies to it.
  pub record Call : Type 0 where
    pub id : ℕ
    pub request : Request
    pub object : R
    pub replies : List Reply
    pub filled : R

  pub record IsCall (x : Call) : Type 0 where
    pub plain : x.request.has_hello_priority ≡ false
    pub expected : x.request.expected_responses ≡ length x.replies
    pub several : 0 < length x.replies
    pub responses : All IsResponse x.replies
    pub fills : Fills adapt 0 x.object x.replies x.filled

  abbrev pub calls : List Call → List (ReqInfo R)
  calls [] = []
  calls (x ∷ xs) = make_info x.id x.request x.object ∷ calls xs

  -- The same, once it was sent.
  abbrev pub exchanges : List Call → List (Exchange adapt)
  exchanges [] = []
  exchanges (x ∷ xs) =
      record {
        info = mark_written (make_info x.id x.request x.object);
        replies = x.replies;
        filled = x.filled;
      }
      ∷ exchanges xs

  pub exchanges-IsExchange :
      (xs : List Call) → All IsCall xs → All (IsExchange adapt) (exchanges xs)
  exchanges-IsExchange [] h = tt
  exchanges-IsExchange (x ∷ xs) (one, h) = (
    record {
      sent = refl;
      expected = one.expected;
      fresh = one.expected;
      several = one.several;
      responses = one.responses;
      fills = one.fills;
    },
    exchanges-IsExchange xs h,
  )

module _ {R S : Type 0} (adapt : ℕ → R → Node → R × Option Failure) where
  start_one :
      (x : Call adapt) (c : Connection R S) (wakes : ℕ) (usage : Usage) (ris : List (ReqInfo R))
      → c.is_open ≡ true
      → x.request.has_hello_priority ≡ false
      → exec_start (make_info x.id x.request x.object) (with_queue c wakes usage ris [])
        ≡ wait (with_queue c (wakes + 1) usage (ris ++ make_info x.id x.request x.object ∷ []) [])
  unfolding exec_start add_request_info enqueue
  start_one x c wakes usage ris o plain = elim (Bool-cases x.request.cfg.cancel_if_not_connected) [
    | inl e ↦ rw (e, o, plain) refl
    | inr e ↦ rw (e, o, plain) refl
  ]

  -- Each of the requests wakes the writer.
  pub start_all-calls :
      (xs : List (Call adapt)) (c : Connection R S) (wakes : ℕ) (usage : Usage)
      (ris : List (ReqInfo R))
      → c.is_open ≡ true
      → All (IsCall adapt) xs
      → start_all (calls adapt xs) (with_queue c wakes usage ris [])
        ≡ wait (with_queue c (wakes + length xs) usage (ris ++ calls adapt xs) [])
  unfolding start_all exec_start
  start_all-calls [] c wakes usage ris o h =
      let count : wakes ≡ wakes + 0 = omega arith in
      rw (append-nil ris) (ap (λ w. wait (with_queue c w usage ris [])) count)
  start_all-calls (x ∷ xs) c wakes usage ris o (one, h) =
      let info = make_info x.id x.request x.object in
      let count : wakes + 1 + length xs ≡ wakes + suc (length xs) = omega arith in
      rw (start_one x c wakes usage ris o one.plain) (
        start_all-calls xs c (wakes + 1) usage (ris ++ info ∷ []) o h
        ∙ ap (λ q. wait (with_queue c (wakes + 1 + length xs) usage q []))
            (append_assoc ris (info ∷ []) (calls adapt xs))
        ∙ ap (λ w. wait (with_queue c w usage (ris ++ info ∷ calls adapt xs) [])) count)
