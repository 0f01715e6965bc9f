-- ===== src/Semantics/Recognised.antt =====
-- What `untrustedString` of decoding.go makes of the two ways in which the kernel writes a string.
use aesirguard_audit.Base.{
  Bool, true, false, ◌||◌, Bytes, ◌≡◌, ◌↔◌, ◌⊎◌, inl, inr, refl, ap, map, Option, none, some,
  if◌then◌else◌,
}
use aesirguard_audit.Base.Hex.{
  AreBytes, lower_digit, decode_hex, encode_hex, decode_hex-spells, spells-decode_hex,
}
use aesirguard_audit.Record.{Field}
use aesirguard_audit.Semantics.Decoding.{untrusted_string, decoded_or}

-- What the value of a field says: itself, if it was quoted or interpreted; else the bytes that it
-- spells in hexadecimal, with digits in either case.
abbrev pub Stands : Field → Bytes → Type 0
Stands f bs =
    (((f.quoted || f.interpreted) ≡ true) × (f.value ≡ bs))
    ⊎ (((f.quoted || f.interpreted) ≡ false)
        × AreBytes bs
        × (map lower_digit f.value ≡ encode_hex bs))

decoded-spells : (o : Option Bytes) (v bs : Bytes) → decoded_or v true o ≡ (bs, true) → o ≡ some bs
decoded-spells none v bs h = cc h
decoded-spells (some x) v bs h = cc h

either_way :
    (literal : Bool) (v bs : Bytes)
    → ((if literal then (v, true) else decoded_or v true (decode_hex v)) ≡ (bs, true)) ↔ (
        ((literal ≡ true) × (v ≡ bs))
        ⊎ ((literal ≡ false) × AreBytes bs × (map lower_digit v ≡ encode_hex bs)))
either_way true v bs = (
  (λ h. inl (refl, ap (λ x. x.0) h)),
  λ h. elim h [ inl (_, same) ↦ ap (λ x. (x, true)) same | inr x ↦ cc x.0 ],
)
either_way false v bs = (
  (λ h.
      let (bytes, spelled) = decode_hex-spells v bs (decoded-spells (decode_hex v) v bs h) in
      inr (refl, bytes, spelled)),
  λ h. elim h [
    | inl x ↦ cc x.0
    | inr (_, bytes, spelled) ↦ ap (decoded_or v true) (spells-decode_hex bs v bytes spelled)
  ],
)

-- In the strict mode a field decodes to a string exactly if its value stands for it: as it is, if it
-- was quoted or interpreted, and else as hexadecimal digits in either case.
pub untrusted_string-Stands :
    (f : Field) (bs : Bytes) → (untrusted_string f true ≡ (bs, true)) ↔ Stands f bs
unfolding untrusted_string
untrusted_string-Stands f bs = either_way (f.quoted || f.interpreted) f.value bs
