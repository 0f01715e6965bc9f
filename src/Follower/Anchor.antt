-- ===== src/Follower/Anchor.antt =====
-- `ContentAnchor` of internal/collector/checkpoint.go. SHA-256 is a parameter, and the file is what
-- it holds at the call.
use aesirguard_audit.Base.{
  ℕ, ◌-◌, ◌≤◌, ◌++◌, Option, none, some, Bytes, ◌≡◌, refl, inl, inr, arith, Bool-cases, ltb, ltb→le,
  length, take, drop, length-append, if◌then◌else◌,
}
use aesirguard_audit.Base.Slices.{take-append_le, drop-append, length-drop}
use aesirguard_audit.Base.Hex.{encode_hex}

-- `n`, the length of each window.
unfoldable pub window_size : ℕ → ℕ
window_size offset = if ltb 4096 offset then 4096 else offset

-- The bytes that are hashed: the first window, and the last one before the offset.
unfoldable pub windows : Bytes → ℕ → Bytes
windows file offset = let n = window_size offset in take n file ++ take n (drop (offset - n) file)

-- `ContentAnchor`, at an offset that is not negative; a read beyond the end is an error.
unfoldable pub content_anchor : (Bytes → Bytes) → Bytes → ℕ → Option Bytes
content_anchor hash file offset =
    if ltb (length file) offset then none else some (encode_hex (hash (windows file offset)))

window_size-le : (offset : ℕ) → window_size offset ≤ offset
unfolding window_size
window_size-le offset = ground arith

windows-append :
    (file more : Bytes) (offset : ℕ)
    → offset ≤ length file
    → windows (file ++ more) offset ≡ windows file offset
unfolding windows
windows-append file more offset h =
    let n = window_size offset in
    let small = window_size-le offset in
    let rest = length-drop (offset - n) file (omega arith) in
    rw
      (
        take-append_le n file more (omega arith),
        drop-append (offset - n) file more (omega arith),
        take-append_le n (drop (offset - n) file) more (omega arith),
      )
      refl

-- An append invalidates no anchor: what `ContentAnchor` gives for an offset it still gives for it when
-- the file has grown, whatever the hash.
pub content_anchor-append :
    (hash : Bytes → Bytes) (file more : Bytes) (offset : ℕ) (anchor : Bytes)
    → content_anchor hash file offset ≡ some anchor
    → content_anchor hash (file ++ more) offset ≡ some anchor
unfolding content_anchor
content_anchor-append hash file more offset anchor h =
    elim (Bool-cases (ltb (length file) offset)) [
      | inl short ↦ ground (arith, short, h)
      | inr long ↦
          let bound = ltb→le (length file) offset long in
          ground (arith, h, long, windows-append file more offset bound, length-append file more)
    ]
