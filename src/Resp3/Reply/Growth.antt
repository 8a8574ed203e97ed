-- ===== src/Resp3/Reply/Growth.antt =====
-- What `get_suggested_buffer_growth` (resp3/impl/parser.ipp) asks for inside a message.
use aedis.Prelude.{
  ℕ, ◌+◌, ◌≤◌, ◌<◌, ◌≡◌, refl, true, false, List, arith, length, word_mod, word, sub_word, ltb,
  ltb→le, Bool-cases, inl, inr,
}
use aedis.Prelude.Bytes.{Bytes}
use aedis.Prelude.Run.{ok}
use aedis.Resp3.Node.{Node}
use aedis.Resp3.Parser.{
  Parser, reset, got, done, bulk_expected, get_suggested_buffer_growth, consume, read_bulk,
}
use aedis.Resp3.Reply.Places.{at_header, in_bulk, Visits, arrived, visit}

no_bulk :
    (p : Parser) (hint : ℕ) → bulk_expected p ≡ false → get_suggested_buffer_growth p hint ≡ hint
unfolding get_suggested_buffer_growth
no_bulk p hint b = rw b refl

done_no_bulk : (p : Parser) → done p ≡ true → bulk_expected p ≡ false
unfolding done
done_no_bulk p d = ground arith

growth_bound :
    (p : Parser) (hint : ℕ) → get_suggested_buffer_growth p hint ≤ hint + word (p.bulk_length + 2)
unfolding get_suggested_buffer_growth
growth_bound p hint = ground arith

-- A bulk that the data has all of.
bulk_there :
    (p q : Parser) (nd : Node) (view : Bytes)
    → bulk_expected p ≡ true
    → consume p view ≡ ok (got q nd)
    → length view < word_mod
    → p.consumed ≤ length view
    → word (p.bulk_length + 2) ≤ length view
unfolding consume read_bulk
bulk_there p q nd view b read bound inside =
    elim (Bool-cases (ltb (sub_word (length view) p.consumed) (word (p.bulk_length + 2)))) [
      | inl less ↦ absurd (let k = rw (b, less) at read in cc)
      | inr enough ↦ let le = ltb→le _ _ enough in omega arith
    ]

-- The parser asks for no more bytes than the hint, or than a bulk takes that is in the data.
pub growth-Visits :
    {view : Bytes} {p q : Parser} {ns : List Node}
    → Visits view p ns q
    → done q ≡ true
    → length view < word_mod
    → p.consumed ≤ length view
    → get_suggested_buffer_growth p 4096 ≤ 4096 + length view
growth-Visits {view} {p} arrived d bound inside = omega (arith, no_bulk p 4096 (done_no_bulk p d))
growth-Visits {view} {p} (visit going (at_header c s rest b no_cr e fine) read v) d bound inside =
    omega (arith, no_bulk p 4096 b)
growth-Visits {view} {p} (visit {q = r} {nd = nd} going (in_bulk b small) read v) d bound inside =
    omega (arith, growth_bound p 4096, bulk_there p r nd view b read bound inside)

pub growth-reset :
    (most coming : ℕ) → get_suggested_buffer_growth reset 4096 ≤ 4096 + (most + coming)
unfolding get_suggested_buffer_growth
growth-reset most coming = omega arith
