-- ===== src/Follower/Fragments.antt =====
-- `NextSource` of internal/collector/follower.go over the fragments of a stream, against the stream cut
-- at its newlines.
use aesirguard_audit.Base.{
  ℕ, ◌+◌, ◌-◌, ◌≤◌, true, false, List, [], ◌∷◌, ◌++◌, some, Bytes, ◌≡◌, refl, ap, sym, ◌∙◌, arith,
  length, length-append, map,
}
use mathlib.Core.List.{append_assoc}
use mathlib.Core.Path.{subst}
use aesirguard_audit.Base.Hex.{encode_hex}
use aesirguard_audit.Follower.Anchor.{content_anchor, windows}
use aesirguard_audit.Follower.Lines.{
  Read, ReadStatus, full_line, buffer_full, read_failed, at_end, SourceLine, FileFollower, max_int,
  newline, begin_line, source_line, complete_line, after_fragment, unless_failed, read_round,
  next_source,
}
use aesirguard_audit.Follower.Split.{
  split_lines, split_lines-append, split_lines-newline, place, place-shift, view, shown, IsFragment,
  NoNewline, stream, AreReads,
}
use aesirguard_audit.Follower.Holding.{
  collect, follow, next_call, follow-next_source, Holds, Absorbs, absorb-Absorbs, source_line-view,
  begin_line-Holds,
}

-- The lines that are returned are those of the stream, and the open line is held.
pub record Follows (open_line bytes : Bytes) (f : FileFollower) (x : FileFollower × List SourceLine)
    : Type 0 where
  pub lines :
      map view x.1
      ≡ place f.max_line_bytes f.origin_offset f.read_offset
          (length open_line)
          (split_lines open_line bytes).0
  pub rest : Holds (split_lines open_line bytes).1 x.0
  pub position : x.0.read_offset ≡ f.read_offset + length bytes

-- The file is long enough for an anchor.
anchored :
    (hash : Bytes → Bytes) (content : Bytes) (offset : ℕ)
    → offset ≤ length content
    → (a : Bytes) × (content_anchor hash content offset ≡ some a)
unfolding content_anchor
anchored hash content offset h = (encode_hex (hash (windows content offset)), ground arith)

-- A fragment without a newline, and what is read behind it.
Follows-fragment :
    (open_line s t : Bytes) (f g : FileFollower) (x : FileFollower × List SourceLine)
    → NoNewline s
    → Absorbs open_line s f g
    → Follows (open_line ++ s) t g x
    → Follows open_line (s ++ t) f x
Follows-fragment open_line s t f g x clean a v = record {
  lines =
      v.lines
      ∙ (λ i.
          place (a.same_limit i) (a.same_start i) (a.moved i) (length-append open_line s i)
            (split_lines (open_line ++ s) t).0)
      ∙ place-shift f.max_line_bytes f.origin_offset f.read_offset (length open_line) (length s)
          (split_lines (open_line ++ s) t).0
      ∙ ap
          (λ (y : List Bytes × Bytes).
            place f.max_line_bytes f.origin_offset f.read_offset (length open_line) y.0)
          (sym (split_lines-append open_line s t clean));
  rest = rw (split_lines-append open_line s t clean) v.rest;
  position = omega (arith, v.position, a.moved, length-append s t);
}

-- A fragment that ends the line.
Follows-line :
    (open_line body t anchor : Bytes) (f g : FileFollower) (x : FileFollower × List SourceLine)
    → NoNewline body
    → Absorbs open_line (body ++ newline ∷ []) f g
    → Follows [] t (begin_line anchor g) x
    → Follows open_line ((body ++ newline ∷ []) ++ t) f (x.0, source_line anchor g ∷ x.1)
unfolding place
Follows-line open_line body t anchor f g x clean a v =
    let line = open_line ++ (body ++ newline ∷ []) in
    let cut : split_lines open_line ((body ++ newline ∷ []) ++ t)
        ≡ (line ∷ (split_lines [] t).0, (split_lines [] t).1) =
      ap (split_lines open_line) (append_assoc body (newline ∷ []) t)
      ∙ split_lines-append open_line body (newline ∷ t) clean
      ∙ split_lines-newline (open_line ++ body) t
      ∙ ap (λ (l : Bytes). (l ∷ (split_lines [] t).0, (split_lines [] t).1))
          (append_assoc open_line body (newline ∷ [])) in
    let end : g.read_offset ≡ f.read_offset + length line - length open_line =
      omega (arith, a.moved, length-append open_line (body ++ newline ∷ [])) in
    record {
      lines =
          (λ i. source_line-view line anchor g a.holds i ∷ v.lines i)
          ∙ (λ i.
              record {
                expected_text = shown g.max_line_bytes line;
                omitted = length line - g.max_line_bytes;
                start = g.origin_offset;
                end = end i;
                size = length line;
              }
              ∷ place g.max_line_bytes (end i) (end i) 0 (split_lines [] t).0)
          ∙ (λ i.
              place (a.same_limit i) (a.same_start i) f.read_offset (length open_line)
                (line ∷ (split_lines [] t).0))
          ∙ ap
              (λ (y : List Bytes × Bytes).
                place f.max_line_bytes f.origin_offset f.read_offset (length open_line) y.0)
              (sym cut);
      rest = rw cut v.rest;
      position = omega (arith, v.position, a.moved, length-append (body ++ newline ∷ []) t);
    }

module _ (hash : Bytes → Bytes) where
  after_fragment-Follows :
      (status : ReadStatus) (content s : Bytes) (rs : List Read) (open_line : Bytes)
      (f g : FileFollower)
      → IsFragment status s
      → g.read_offset ≤ length content
      → Absorbs open_line s f g
      → ((o : Bytes) (h : FileFollower)
          → Holds o h
          → h.read_offset ≡ f.read_offset + length s
          → length o ≤ length open_line + length s
          → Follows o (stream rs) h (follow hash rs h))
      → Follows open_line
          (s ++ stream rs)
          f
          (collect hash (follow hash rs) (after_fragment hash status content g))
  unfolding after_fragment collect complete_line
  after_fragment-Follows full_line content s rs open_line f g (body, is, clean) long a again =
      let (anchor, there) = anchored hash content g.read_offset long in
      let h = begin_line anchor g in
      let later = again [] h (begin_line-Holds anchor g a.holds.recovers) a.moved (omega arith) in
      rw there (
        subst
          (λ (z : Bytes).
            Follows open_line (z ++ stream rs) f
              ((follow hash rs h).0, source_line anchor g ∷ (follow hash rs h).1))
          (sym is)
          (Follows-line open_line body (stream rs) anchor f g (follow hash rs h) clean
            (subst (λ (z : Bytes). Absorbs open_line z f g) is a) later))
  after_fragment-Follows buffer_full content s rs open_line f g clean long a again =
      Follows-fragment open_line s (stream rs) f g _ clean a
        (again (open_line ++ s) g a.holds a.moved (omega (arith, length-append open_line s)))
  after_fragment-Follows (at_end false) content s rs open_line f g clean long a again =
      Follows-fragment open_line s (stream rs) f g _ clean a
        (again (open_line ++ s) g a.holds a.moved (omega (arith, length-append open_line s)))
  after_fragment-Follows (at_end true) content s rs open_line f g never long a again = absurd never
  after_fragment-Follows read_failed content s rs open_line f g never long a again = absurd never

  pub follow-Follows :
      (rs : List Read) (open_line : Bytes) (f : FileFollower)
      → Holds open_line f
      → AreReads f.read_offset rs
      → length open_line + length (stream rs) ≤ max_int
      → Follows open_line (stream rs) f (follow hash rs f)
  unfolding follow read_round unless_failed place split_lines
  follow-Follows [] open_line f v h b = record { lines = refl; rest = v; position = omega arith }
  follow-Follows (r ∷ rs) open_line f v h b =
      let (g, reads, a) =
        absorb-Absorbs open_line r.fragment f v
          (omega (arith, b, length-append r.fragment (stream rs))) in
      let here =
        after_fragment-Follows r.status r.content r.fragment rs open_line f g h.1
          (omega (arith, h.2, a.moved)) a
          (λ o i w e k.
            follow-Follows rs o i w (rw e h.3)
              (omega (arith, b, k, length-append r.fragment (stream rs)))) in
      rw (h.0, reads) here

  -- However `ReadSlice` cuts the stream into fragments, and wherever polls find the end of the file:
  -- for a follower that recovers from long lines and holds an open line, and uncancelled reads of a
  -- file that is long enough, of fewer than 2^63 bytes, the lines that `NextSource` returns, call by
  -- call, are those between the newlines of the stream, each with its text, the bytes it leaves out
  -- and its place; what follows the last newline is held, up to the limit.
  pub next_source-Follows :
      (rs : List Read) (open_line : Bytes) (f : FileFollower)
      → Holds open_line f
      → AreReads f.read_offset rs
      → length open_line + length (stream rs) ≤ max_int
      → Follows open_line (stream rs) f (next_call hash (next_source hash rs f))
  next_source-Follows rs open_line f v h b =
      rw (← follow-next_source hash rs f) (follow-Follows rs open_line f v h b)
