-- ===== src/Follower/Split.antt =====
-- The stream that a follower reads, cut at its newlines: what its lines should be.
use aesirguard_audit.Base.{
  ℕ, ◌+◌, ◌-◌, ◌≤◌, true, false, List, [], ◌∷◌, ◌++◌, Bytes, ◌≡◌, refl, ap, ◌∙◌, arith, All, nat_eq,
  leb, length, take, if◌then◌else◌,
}
use mathlib.Core.List.{append_assoc, append-nil}
use aesirguard_audit.Follower.Lines.{
  Read, ReadStatus, full_line, buffer_full, read_failed, at_end, SourceLine, newline, trim_byte,
}

-- The complete lines, each with its newline, and the open line; the first one is open already.
unfoldable pub split_lines : Bytes → Bytes → List Bytes × Bytes
split_lines open_line [] = ([], open_line)
split_lines open_line (c ∷ cs) =
    let line = open_line ++ c ∷ [] in
    let (lines, rest) = split_lines (if nat_eq c newline then [] else line) cs in
    (if nat_eq c newline then line ∷ lines else lines, rest)

-- What a line is to say: its text, how many bytes it left out, and where it stands.
pub record Expected : Type 0 where
  pub expected_text : Bytes
  pub omitted : ℕ
  pub start : ℕ
  pub end : ℕ
  pub size : ℕ

-- The text of a line without its ending, or the prefix that the limit allows.
abbrev pub shown : ℕ → Bytes → Bytes
shown max_line line =
    if leb (length line) max_line then trim_byte 13 (trim_byte newline line) else take max_line line

-- Of the first line, `read` bytes stand before the offset `from`; each later line starts where the
-- one before it ends.
unfoldable pub place : ℕ → ℕ → ℕ → ℕ → List Bytes → List Expected
place max_line start from read [] = []
place max_line start from read (line ∷ lines) =
    let end = from + length line - read in
    record {
      expected_text = shown max_line line;
      omitted = length line - max_line;
      start = start;
      end = end;
      size = length line;
    }
    ∷ place max_line end end 0 lines

abbrev pub view : SourceLine → Expected
view l = record {
  expected_text = l.text;
  omitted = l.omitted_bytes;
  start = l.line_start;
  end = l.line_end;
  size = l.line_bytes;
}

abbrev pub NoNewline : Bytes → Type 0
NoNewline = All (λ (c : ℕ). nat_eq c newline ≡ false)

-- What `ReadSlice` documents of a fragment; the last two ends of a call are left out.
abbrev pub IsFragment : ReadStatus → Bytes → Type 0
IsFragment full_line s = (body : Bytes) × (s ≡ body ++ newline ∷ []) × NoNewline body
IsFragment buffer_full s = NoNewline s
IsFragment (at_end false) s = NoNewline s
IsFragment (at_end true) s = ⊥
IsFragment read_failed s = ⊥

abbrev pub stream : List Read → Bytes
stream [] = []
stream (r ∷ rs) = r.fragment ++ stream rs

-- Uncancelled reads from an offset on, of a file that holds at least what has been read.
abbrev pub AreReads : ℕ → List Read → Type 0
AreReads from [] = Unit
AreReads from (r ∷ rs) =
    (r.cancelled ≡ false)
    × IsFragment r.status r.fragment
    × (from + length r.fragment ≤ length r.content)
    × AreReads (from + length r.fragment) rs

-- A fragment without a newline extends the open line.
pub split_lines-append :
    (open_line s t : Bytes)
    → NoNewline s
    → split_lines open_line (s ++ t) ≡ split_lines (open_line ++ s) t
unfolding split_lines
split_lines-append open_line [] t h = rw (append-nil open_line) refl
split_lines-append open_line (c ∷ s) t h = rw h.0 (
    split_lines-append (open_line ++ c ∷ []) s t h.1
    ∙ ap (λ x. split_lines x t) (append_assoc open_line (c ∷ []) s))

-- A newline closes it.
pub split_lines-newline :
    (open_line t : Bytes)
    → split_lines open_line (newline ∷ t)
      ≡ ((open_line ++ newline ∷ []) ∷ (split_lines [] t).0, (split_lines [] t).1)
unfolding split_lines
split_lines-newline open_line t = refl

pub place-shift :
    (max_line start from read k : ℕ) (lines : List Bytes)
    → place max_line start (from + k) (read + k) lines ≡ place max_line start from read lines
unfolding place
place-shift max_line start from read k [] = refl
place-shift max_line start from read k (line ∷ lines) =
    let same : from + k + length line - (read + k) ≡ from + length line - read = omega arith in
    rw same refl
