-- ===== src/Adapter/Choice/Decoded.antt =====
-- What the elements of a response are behind the replies that their types expect.
use aedis.Prelude.{ℕ, ◌<◌, ◌≡◌, sym, inl, inr, none, some, [], word_mod, subst}
use aedis.Prelude.Run.{ok}
use aedis.Resp3.Parser.Trace.{Takes}
use aedis.Resp3.Reply.{Reply, line, blob, stream, aggregate, nodes, Fits}
use aedis.Adapter.{value}
use aedis.Adapter.Choice.{
  ElementType, scalar, optional, vector, list, array_of, set_of_strings, map_of, generic, single,
  ignored, Held, internal_adapt, adapter_of,
}
use aedis.Adapter.Choice.Expected.{Decodes}
use aedis.Adapter.Choice.Simple.{
  text_of-IsSimple, scalar-Takes, optional-Takes, null-Takes, generic-Takes, ignored-Takes,
  single-Takes,
}
use aedis.Adapter.Choice.Sequences.{vector-Takes, list-Takes, set-Takes}
use aedis.Adapter.Choice.Maps.{map-Takes}
use aedis.Adapter.Choice.Fixed.{array-Takes}

module _ (max_size : ℕ) (max_fits : max_size < word_mod) where
  abbrev Fills : (t : ElementType) → Reply → Held t → Type 0
  Fills t r h = Takes (adapter_of max_size t) (ok (internal_adapt t)) (nodes 0 r) (ok h)

  filled_with : (t : ElementType) (r : Reply) (h x : Held t) → h ≡ x → Fills t r x → Fills t r h
  filled_with t r h x e taken = subst (Fills t r) (sym e) taken

  -- The adapter of the type takes the reply.
  pub Decodes-Takes :
      (t : ElementType) (r : Reply) (h : Held t)
      → Fits 0 r
      → Decodes max_size t r h
      → Takes (adapter_of max_size t) (ok (internal_adapt t)) (nodes 0 r) (ok h)
  unfolding Fits nodes
  Decodes-Takes (scalar s) r h fits (v, e, (text, is_text, read)) =
      filled_with (scalar s) r h (value v, tt) e
        (scalar-Takes max_size s (nodes 0 r) text v (text_of-IsSimple 0 r text fits is_text) read)
  Decodes-Takes (optional s) r h fits (inl (is_null_line, e)) =
      filled_with (optional s) r h (value none, tt) e (null-Takes max_size s r is_null_line)
  Decodes-Takes (optional s) r h fits (inr (v, e, (text, is_text, read))) =
      filled_with (optional s) r h (value (some v), tt) e
        (optional-Takes max_size s (nodes 0 r) text v (text_of-IsSimple 0 r text fits is_text) read)
  Decodes-Takes (vector s) (aggregate t n rs) h (is_agg, size, room, below) (vs, e, items, le) =
      filled_with (vector s) (aggregate t n rs) h _ e
        (vector-Takes max_size s t n rs vs max_fits is_agg le below items)
  Decodes-Takes (list s) (aggregate t n rs) h (is_agg, size, room, below) (vs, e, items) =
      filled_with (list s) (aggregate t n rs) h _ e
        (list-Takes max_size s t n rs vs is_agg below items)
  Decodes-Takes (array_of k s) (aggregate t n rs) h (is_agg, size, room, below)
        (vs, e, items, all, small) =
      filled_with (array_of k s) (aggregate t n rs) h _ e
        (array-Takes max_size k s t n rs vs is_agg size all small below items)
  Decodes-Takes set_of_strings (aggregate t n rs) h (is_agg, size, room, below) (ks, e, items, is) =
      filled_with set_of_strings (aggregate t n rs) h _ e
        (set-Takes max_size t n rs ks is_agg is below items)
  Decodes-Takes (map_of s) (aggregate t n rs) h (is_agg, size, room, below) (ps, e, items, two) =
      filled_with (map_of s) (aggregate t n rs) h _ e
        (map-Takes max_size s t n rs ps is_agg two below items)
  Decodes-Takes (vector s) (line t x) h fits e = elim e [ ]
  Decodes-Takes (vector s) (blob t x) h fits e = elim e [ ]
  Decodes-Takes (vector s) (stream t x) h fits e = elim e [ ]
  Decodes-Takes (list s) (line t x) h fits e = elim e [ ]
  Decodes-Takes (list s) (blob t x) h fits e = elim e [ ]
  Decodes-Takes (list s) (stream t x) h fits e = elim e [ ]
  Decodes-Takes (array_of k s) (line t x) h fits e = elim e [ ]
  Decodes-Takes (array_of k s) (blob t x) h fits e = elim e [ ]
  Decodes-Takes (array_of k s) (stream t x) h fits e = elim e [ ]
  Decodes-Takes set_of_strings (line t x) h fits e = elim e [ ]
  Decodes-Takes set_of_strings (blob t x) h fits e = elim e [ ]
  Decodes-Takes set_of_strings (stream t x) h fits e = elim e [ ]
  Decodes-Takes (map_of s) (line t x) h fits e = elim e [ ]
  Decodes-Takes (map_of s) (blob t x) h fits e = elim e [ ]
  Decodes-Takes (map_of s) (stream t x) h fits e = elim e [ ]
  Decodes-Takes generic r h fits (e, valid) =
      filled_with generic r h _ e (generic-Takes max_size (nodes 0 r) [] valid)
  Decodes-Takes single r h fits (nd, one, valid, e) =
      filled_with single r h _ e (single-Takes max_size (nodes 0 r) nd one valid)
  Decodes-Takes ignored r h fits valid = ignored-Takes max_size (nodes 0 r) valid
