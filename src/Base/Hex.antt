-- ===== src/Base/Hex.antt =====
-- Go's `encoding/hex` on byte strings.
use aesirguard_audit.Base.Eq.{Bytes}
use aesirguard_audit.Base.Tests.{leb, ltb, if◌then◌else◌}
use aesirguard_audit.Base.Lists.{All}
use Prim.Native.Nat.{ℕ, ◌+◌, ◌-◌, ◌*◌, ◌/◌, ◌%◌, ◌<◌}
use mathlib.Core.Path.{◌≡◌, refl}
use mathlib.Core.Bool.{◌&&◌}
use mathlib.Core.Option.{Option, none, some}
use mathlib.Core.List.{[], ◌∷◌, map}
use native.Mathlib.Omega.{arith}

-- The value of a hex digit, in either case.
unfoldable pub hex_value : ℕ → Option ℕ
hex_value c =
    if leb b'0' c && leb c b'9'
    then some (c - b'0')
    else if leb b'a' c && leb c b'f'
    then some (c - b'a' + 10)
    else if leb b'A' c && leb c b'F'
    then some (c - b'A' + 10)
    else none

-- One byte in front of what was decoded behind it.
unfoldable pub hex_pair : Option ℕ → Option ℕ → Option Bytes → Option Bytes
hex_pair (some high) (some low) (some bs) = some ((high * 16 + low) ∷ bs)
hex_pair _ _ _ = none

-- `hex.DecodeString`; an odd length is an error.
unfoldable pub decode_hex : Bytes → Option Bytes
decode_hex [] = some []
decode_hex (c ∷ []) = none
decode_hex (c ∷ d ∷ cs) = hex_pair (hex_value c) (hex_value d) (decode_hex cs)

unfoldable pub hex_digit : ℕ → ℕ
hex_digit n = if ltb n 10 then n + b'0' else n - 10 + b'a'

-- `hex.EncodeToString`.
unfoldable pub encode_hex : Bytes → Bytes
encode_hex [] = []
encode_hex (b ∷ bs) = hex_digit (b / 16) ∷ hex_digit (b % 16) ∷ encode_hex bs

-- Each number is a byte.
abbrev pub AreBytes : Bytes → Type 0
AreBytes = All (λ (b : ℕ). b < 256)

-- The lower-case spelling of a digit; the kernel writes `A` to `F`.
abbrev pub lower_digit : ℕ → ℕ
lower_digit c = if leb b'A' c && leb c b'F' then c + 32 else c

hex_value-some : (c n : ℕ) → hex_value c ≡ some n → (n < 16) × (lower_digit c ≡ hex_digit n)
unfolding hex_value hex_digit
hex_value-some c n h = ground (arith, h)

hex_value-lower : (c n : ℕ) → n < 16 → lower_digit c ≡ hex_digit n → hex_value c ≡ some n
unfolding hex_value hex_digit
hex_value-lower c n h k = ground (arith, h, k)

hex_pair-some :
    (h l : Option ℕ) (o : Option Bytes) (bs : Bytes)
    → hex_pair h l o ≡ some bs
    → (high : ℕ) × (low : ℕ) × (rest : Bytes) × (h ≡ some high)
      × (l ≡ some low)
      × (o ≡ some rest)
      × (bs ≡ (high * 16 + low) ∷ rest)
unfolding hex_pair
hex_pair-some none l o bs h = cc h
hex_pair-some (some high) none o bs h = cc h
hex_pair-some (some high) (some low) none bs h = cc h
hex_pair-some (some high) (some low) (some rest) bs h = (high, low, rest, refl, refl, refl, cc h)

-- What decodes is a spelling of bytes, in either case.
pub decode_hex-spells :
    (cs bs : Bytes) → decode_hex cs ≡ some bs → AreBytes bs × (map lower_digit cs ≡ encode_hex bs)
unfolding decode_hex encode_hex
decode_hex-spells [] bs h = let is : bs ≡ [] = cc h in rw is (tt, refl)
decode_hex-spells (c ∷ []) bs h = cc h
decode_hex-spells (c ∷ d ∷ cs) bs h =
    let (high, low, rest, hc, hd, hr, is) =
      hex_pair-some (hex_value c) (hex_value d) (decode_hex cs) bs h in
    let (bytes, spelled) = decode_hex-spells cs rest hr in
    let (small, first) = hex_value-some c high hc in
    let (small', second) = hex_value-some d low hd in
    let above : (high * 16 + low) / 16 ≡ high = omega (arith, small') in
    let below : (high * 16 + low) % 16 ≡ low = omega (arith, small') in
    rw is ((omega (arith, small, small'), bytes), cc (first, second, spelled, above, below))

-- A spelling of bytes, in either case, decodes.
pub spells-decode_hex :
    (bs cs : Bytes) → AreBytes bs → map lower_digit cs ≡ encode_hex bs → decode_hex cs ≡ some bs
unfolding decode_hex encode_hex hex_pair
spells-decode_hex [] [] h s = refl
spells-decode_hex [] (c ∷ cs) h s = cc s
spells-decode_hex (b ∷ bs) [] h s = cc s
spells-decode_hex (b ∷ bs) (c ∷ []) h s = ground (arith, s)
spells-decode_hex (b ∷ bs) (c ∷ d ∷ cs) h s =
    let first : lower_digit c ≡ hex_digit (b / 16) = cc s in
    let second : lower_digit d ≡ hex_digit (b % 16) = cc s in
    let rest : map lower_digit cs ≡ encode_hex bs = cc s in
    ground (
      arith,
      hex_value-lower c (b / 16) (omega (arith, h.0)) first,
      hex_value-lower d (b % 16) (omega arith) second,
      spells-decode_hex bs cs h.1 rest,
    )
