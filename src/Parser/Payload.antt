-- ===== src/Parser/Payload.antt =====
-- `normalizeAuditPayload` of parser.go: the prose of an AVC message as fields. `strconv.Quote` is
-- the parameter `quote`: its escaping rests on the tables of printable characters of Unicode.
use aesirguard_audit.Base.{
  ℕ, zero, suc, Bool, ◌&&◌, ◌||◌, [], ◌∷◌, ◌++◌, none, some, Bytes, bytes_equality, codes, leb,
  nat_eq, if◌then◌else◌, length, drop,
}
use mathlib.Core.List.{reverse}
use aesirguard_audit.Parser.Text.{after_prefix, cut_at, trim_prefix}

-- The width in bytes of the white space that a text begins with, if it does (`unicode.IsSpace`).
abbrev ascii_space : ℕ → Bool
ascii_space c = leb 9 c && leb c 13 || nat_eq c b' '

abbrev space2 : ℕ → ℕ → Bool
space2 a b = nat_eq a 0xc2 && (nat_eq b 0x85 || nat_eq b 0xa0)

abbrev space3 : ℕ → ℕ → ℕ → Bool
space3 a b c =
    nat_eq a 0xe1 && nat_eq b 0x9a && nat_eq c 0x80
    || nat_eq a 0xe2
      && (nat_eq b 0x80
            && (leb 0x80 c && leb c 0x8a || nat_eq c 0xa8 || nat_eq c 0xa9 || nat_eq c 0xaf)
          || nat_eq b 0x81 && nat_eq c 0x9f)
    || nat_eq a 0xe3 && nat_eq b 0x80 && nat_eq c 0x80

unfoldable pub space_width : Bytes → ℕ
space_width [] = 0
space_width (a ∷ []) = if ascii_space a then 1 else 0
space_width (a ∷ b ∷ []) = if ascii_space a then 1 else if space2 a b then 2 else 0
space_width (a ∷ b ∷ c ∷ _) =
    if ascii_space a then 1 else if space2 a b then 2 else if space3 a b c then 3 else 0

-- The same at the end of a text that is given backwards.
unfoldable pub space_width_back : Bytes → ℕ
space_width_back [] = 0
space_width_back (a ∷ []) = if ascii_space a then 1 else 0
space_width_back (a ∷ b ∷ []) = if ascii_space a then 1 else if space2 b a then 2 else 0
space_width_back (a ∷ b ∷ c ∷ _) =
    if ascii_space a then 1 else if space2 b a then 2 else if space3 c b a then 3 else 0

unfoldable pub trim_by : (Bytes → ℕ) → ℕ → Bytes → Bytes
trim_by width zero s = s
trim_by width (suc fuel) s =
    let rest = trim_by width fuel (drop (width s) s) in if nat_eq (width s) 0 then s else rest

-- `strings.TrimSpace`; each round drops a byte at least.
unfoldable pub trim_space : Bytes → Bytes
trim_space s =
    let front = trim_by space_width (length s) s in
    reverse (trim_by space_width_back (length s) (reverse front))

module _ (quote : Bytes → Bytes) where
  abbrev pub rendered : Bytes → Bytes → Bytes → Bytes
  rendered decision permissions remainder =
      codes "decision="
      ++ (quote decision
          ++ (codes " permissions=" ++ (quote permissions ++ (codes " " ++ remainder))))

  -- From the permissions on, behind the opening brace.
  unfoldable pub normalize_permissions : Bytes → Bytes → Bytes → Bytes
  normalize_permissions payload decision text = elim (cut_at (codes "}") text) [
    | none ↦ payload
    | some (permissions, rest) ↦
        rendered decision (trim_space permissions)
          (trim_space (trim_prefix (trim_space rest) (codes "for")))
  ]

  unfoldable pub normalize_decision : Bytes → Bytes → Bytes → Bytes
  normalize_decision payload decision text = elim (after_prefix (codes "{") (trim_space text)) [
    | none ↦ payload
    | some body ↦ normalize_permissions payload decision body
  ]

  -- Behind `avc:`.
  unfoldable pub normalize_avc : Bytes → Bytes → Bytes
  normalize_avc payload text = elim (cut_at (codes " ") (trim_space text)) [
    | none ↦ payload
    | some (decision, rest) ↦
        if nat_eq (length decision) 0 then payload else normalize_decision payload decision rest
  ]

  unfoldable pub normalize_plain : Bytes → Bytes
  normalize_plain payload = elim (after_prefix (codes "avc:") payload) [
    | none ↦ payload
    | some text ↦ normalize_avc payload text
  ]

  -- The recursion on `user ` prefixes, each of which shortens the payload.
  unfoldable pub normalize_users : ℕ → Bytes → Bytes
  normalize_users zero payload = normalize_plain payload
  normalize_users (suc fuel) payload = elim (after_prefix (codes "user ") payload) [
    | none ↦ normalize_plain payload
    | some rest ↦ normalize_users fuel rest
  ]

  unfoldable pub normalize_audit_payload : Bytes → Bytes
  normalize_audit_payload payload = normalize_users (length payload) payload
