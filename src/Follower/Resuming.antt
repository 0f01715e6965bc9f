-- ===== src/Follower/Resuming.antt =====
-- `OpenFileFollowerAt` of internal/collector/follower.go, against the lines of the file before and
-- behind its offset.
use aesirguard_audit.Base.{
  ℕ, zero, suc, ◌≤◌, true, false, [], ◌∷◌, ◌++◌, Option, none, some, Bytes, bytes_equality, ◌≡◌,
  refl, ap, sym, ◌∙◌, inl, inr, arith, Bool-cases, nat_eq, nat_eq_iff, length, take, drop,
}
use mathlib.Core.Path.{subst}
use aesirguard_audit.Parser.Values.{SignedNumber, is_negative}
use aesirguard_audit.Parser.Fields.{ok}
use aesirguard_audit.Collector.Ledger.{FileIdentity}
use aesirguard_audit.Follower.Anchor.{content_anchor}
use aesirguard_audit.Follower.Lines.{FollowerOptions, FileFollower, newline}
use aesirguard_audit.Follower.Split.{split_lines}
use aesirguard_audit.Follower.Opening.{
  OpenAnswer, is_other, is_other_anchor, is_boundary, starts_with, new_follower, open_anchored,
  open_identified, open_file_follower_at,
}

-- A newline inside the stream: the lines up to it, and those behind it.
split_lines-cut :
    (open_line pre t : Bytes)
    → (split_lines open_line (pre ++ newline ∷ t)).0
      ≡ (split_lines open_line (pre ++ newline ∷ [])).0 ++ (split_lines [] t).0
unfolding split_lines
split_lines-cut open_line [] t = refl
split_lines-cut open_line (c ∷ pre) t = elim (Bool-cases (nat_eq c newline)) [
  | inl ends ↦ rw ends (ap (λ ls. (open_line ++ c ∷ []) ∷ ls) (split_lines-cut [] pre t))
  | inr goes ↦ rw goes (split_lines-cut (open_line ++ c ∷ []) pre t)
]

-- The byte at a place, between what stands before it and behind it.
byte_at :
    (c n : ℕ) (xs : Bytes)
    → starts_with c (drop n xs) ≡ true
    → (take (suc n) xs ≡ take n xs ++ c ∷ []) × (xs ≡ take n xs ++ c ∷ drop (suc n) xs)
byte_at c zero [] h = cc
byte_at c zero (x ∷ xs) h = let e = (nat_eq_iff x c).0 h in (ap (λ y. y ∷ []) e, ap (λ y. y ∷ xs) e)
byte_at c (suc n) [] h = cc
byte_at c (suc n) (x ∷ xs) h =
    let (p, q) = byte_at c n xs h in (ap (λ t. x ∷ t) p, ap (λ t. x ∷ t) q)

split_lines-boundary :
    (content : Bytes) (n : ℕ)
    → is_boundary content n ≡ true
    → (split_lines [] content).0
      ≡ (split_lines [] (take n content)).0 ++ (split_lines [] (drop n content)).0
unfolding is_boundary
split_lines-boundary content zero h = unfold split_lines in refl
split_lines-boundary content (suc n) h =
    let (front, all) = byte_at newline n content h in
    ap (λ (x : Bytes). (split_lines [] x).0) all
    ∙ split_lines-cut [] (take n content) (drop (suc n) content)
    ∙ ap (λ (x : Bytes). (split_lines [] x).0 ++ (split_lines [] (drop (suc n) content)).0)
        (sym front)

-- What it means to resume at an offset: nothing is held, the place is a line boundary of the file
-- and identified as was asked, and the lines behind it complete those before it.
pub record Resumes (hash : Bytes → Bytes) (content : Bytes) (offset : ℕ)
    (expected : Option FileIdentity) (anchors : Option Bytes) (f : FileFollower) : Type 0 where
  pub position : (f.read_offset ≡ offset) × (f.origin_offset ≡ offset) × (offset ≤ length content)
  pub nothing_held : (f.partial ≡ []) × (f.bytes_read ≡ 0)
  pub anchor : content_anchor hash content offset ≡ some f.origin_anchor
  pub same_file : is_other expected f.identity ≡ false
  pub same_content : is_other_anchor anchors f.origin_anchor ≡ false
  pub no_line_lost :
      (split_lines [] content).0
      ≡ (split_lines [] (take offset content)).0 ++ (split_lines [] (drop offset content)).0

open_anchored-ok :
    (o : FollowerOptions) (os : OpenAnswer) (offset : ℕ) (anchors : Option Bytes)
    (identity : FileIdentity) (a : Bytes) (f : FileFollower)
    → open_anchored o os offset anchors identity (some a) ≡ ok f
    → (new_follower o offset identity a ≡ f)
      × (is_other_anchor anchors a ≡ false)
      × (is_boundary os.file_content offset ≡ true)
unfolding open_anchored
open_anchored-ok o os offset anchors identity a f h = ground arith

module _ (hash : Bytes → Bytes) where
  open_anchored-Resumes :
      (o : FollowerOptions) (os : OpenAnswer) (offset : ℕ) (expected : Option FileIdentity)
      (anchors : Option Bytes) (identity : FileIdentity) (a : Option Bytes) (f : FileFollower)
      → open_anchored o os offset anchors identity a ≡ ok f
      → content_anchor hash os.file_content offset ≡ a
      → offset ≤ length os.file_content
      → is_other expected identity ≡ false
      → Resumes hash os.file_content offset expected anchors f
  unfolding open_anchored
  open_anchored-Resumes o os offset expected anchors identity none f h c b e = cc
  open_anchored-Resumes o os offset expected anchors identity (some a) f h c b e =
      let (made, same, boundary) = open_anchored-ok o os offset anchors identity a f h in
      subst (Resumes hash os.file_content offset expected anchors) made (record {
        position = (refl, refl, b);
        nothing_held = (refl, refl);
        anchor = c;
        same_file = e;
        same_content = same;
        no_line_lost = split_lines-boundary os.file_content offset boundary;
      })

  open_identified-ok :
      (o : FollowerOptions) (os : OpenAnswer) (offset : ℕ) (expected : Option FileIdentity)
      (anchors : Option Bytes) (i : FileIdentity) (f : FileFollower)
      → open_identified hash o os offset expected anchors (some i) ≡ ok f
      → (is_other expected i ≡ false)
        × (offset ≤ length os.file_content)
        × (open_anchored o os offset anchors i (content_anchor hash os.file_content offset) ≡ ok f)
  unfolding open_identified
  open_identified-ok o os offset expected anchors i f h = ground arith

  open_identified-Resumes :
      (o : FollowerOptions) (os : OpenAnswer) (offset : ℕ) (expected : Option FileIdentity)
      (anchors : Option Bytes) (identity : Option FileIdentity) (f : FileFollower)
      → open_identified hash o os offset expected anchors identity ≡ ok f
      → Resumes hash os.file_content offset expected anchors f
  unfolding open_identified
  open_identified-Resumes o os offset expected anchors none f h = cc
  open_identified-Resumes o os offset expected anchors (some identity) f h =
      let (same, bound, opened) = open_identified-ok o os offset expected anchors identity f h in
      open_anchored-Resumes o os offset expected anchors identity _ f opened refl bound same

  open_anchored-new :
      (o : FollowerOptions) (os : OpenAnswer) (offset : ℕ) (anchors : Option Bytes)
      (identity : FileIdentity) (a : Option Bytes) (f : FileFollower)
      → open_anchored o os offset anchors identity a ≡ ok f
      → (anchor : Bytes) × (new_follower o offset identity anchor ≡ f)
  unfolding open_anchored
  open_anchored-new o os offset anchors identity none f h = cc
  open_anchored-new o os offset anchors identity (some a) f h =
      (a, (open_anchored-ok o os offset anchors identity a f h).0)

  open_identified-new :
      (o : FollowerOptions) (os : OpenAnswer) (offset : ℕ) (expected : Option FileIdentity)
      (anchors : Option Bytes) (identity : Option FileIdentity) (f : FileFollower)
      → open_identified hash o os offset expected anchors identity ≡ ok f
      → (i : FileIdentity) × (anchor : Bytes) × (new_follower o offset i anchor ≡ f)
        × (is_other expected i ≡ false)
  unfolding open_identified
  open_identified-new o os offset expected anchors none f h = cc
  open_identified-new o os offset expected anchors (some i) f h =
      let anchored = content_anchor hash os.file_content offset in
      let (same, short, opened) = open_identified-ok o os offset expected anchors i f h in
      let (anchor, made) = open_anchored-new o os offset anchors i anchored f opened in
      (i, anchor, made, same)

  open_file_follower_at-ok :
      (o : FollowerOptions) (os : OpenAnswer) (offset : SignedNumber)
      (expected : Option FileIdentity) (anchors : Option Bytes) (f : FileFollower)
      → open_file_follower_at hash o os offset expected anchors ≡ ok f
      → (is_negative offset ≡ false)
        × (open_identified hash o os offset.magnitude expected anchors os.file_identity ≡ ok f)
  unfolding open_file_follower_at
  open_file_follower_at-ok o os offset expected anchors f h = ground arith

  -- A follower that is returned is new, at the offset, in the file that was asked for.
  pub open_file_follower_at-new :
      (o : FollowerOptions) (os : OpenAnswer) (offset : SignedNumber)
      (expected : Option FileIdentity) (anchors : Option Bytes) (f : FileFollower)
      → open_file_follower_at hash o os offset expected anchors ≡ ok f
      → (identity : FileIdentity) × (anchor : Bytes) × (new_follower o offset.magnitude identity
            anchor
          ≡ f)
        × (is_other expected identity ≡ false)
  open_file_follower_at-new o os offset expected anchors f h =
      let (positive, opened) = open_file_follower_at-ok o os offset expected anchors f h in
      open_identified-new o os offset.magnitude expected anchors os.file_identity f opened

  -- A follower that `OpenFileFollowerAt` returns, whatever was asked and answered: the offset is not
  -- negative and a line boundary within the file, the file and its anchor are those asked for,
  -- nothing is held, and the complete lines of the file are those before the offset and those behind
  -- it, so a restart there neither loses nor repeats one.
  pub open_file_follower_at-Resumes :
      (o : FollowerOptions) (os : OpenAnswer) (offset : SignedNumber)
      (expected : Option FileIdentity) (anchors : Option Bytes) (f : FileFollower)
      → open_file_follower_at hash o os offset expected anchors ≡ ok f
      → (is_negative offset ≡ false)
        × Resumes hash os.file_content offset.magnitude expected anchors f
  open_file_follower_at-Resumes o os offset expected anchors f h =
      let (positive, opened) = open_file_follower_at-ok o os offset expected anchors f h in
      (
        positive,
        open_identified-Resumes o os offset.magnitude expected anchors os.file_identity f opened,
      )
