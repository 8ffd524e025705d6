-- ===== src/Clipboard/Uris/Encoding.antt =====
-- The characters of an encoded path, and its bytes once they are decoded.
use zsync.Base.{
  All-append, eqb, Bool-cases, All, Bytes, Text, text_eq, nat_eq, ok, ℕ, ◌/◌, ◌%◌, ◌<◌, ◌≡◌, refl,
  ap, ◌∙◌, inl, inr, true, false, [], ◌∷◌, arith,
}
use zsync.Base.Words.{AreBytes}
use zsync.Base.Utf8.{IsChar, encode_char, as_bytes}
use zsync.Group.{from_str_radix}
use zsync.Clipboard.Uris.{is_plain_byte, upper_hex, encode_byte, encode_bytes, decode_bytes}

-- A character between the space and the delete character.
abbrev pub IsVisible : ℕ → Type 0
IsVisible c = (32 < c) × (c < 127)

from_str_radix-upper_hex :
    (b : ℕ) → b < 256 → from_str_radix (upper_hex (b / 16) ∷ upper_hex (b % 16) ∷ []) ≡ ok b
unfolding from_str_radix
from_str_radix-upper_hex b h = ground arith

encode_char-AreBytes : (c : ℕ) → IsChar c → AreBytes (encode_char c)
unfolding encode_char
encode_char-AreBytes c (h, _) = ground arith

pub as_bytes-AreBytes : (s : Text) → All IsChar s → AreBytes (as_bytes s)
unfolding as_bytes
as_bytes-AreBytes [] h = tt
as_bytes-AreBytes (c ∷ s) (hc, hs) =
    All-append _ (encode_char c) (as_bytes s) (encode_char-AreBytes c hc) (as_bytes-AreBytes s hs)

encode_byte-IsVisible : (b : ℕ) → b < 256 → All IsVisible (encode_byte b)
encode_byte-IsVisible b h = elim (Bool-cases (is_plain_byte b)) [
  | inl plain ↦ rw (plain, encode_byte) (visible b plain, tt)
  | inr other ↦ rw (other, encode_byte) (ground arith)
]
  where
    visible : (b : ℕ) → is_plain_byte b ≡ true → IsVisible b
    visible b h = ground arith

pub encode_bytes-IsVisible : (bs : Bytes) → AreBytes bs → All IsVisible (encode_bytes bs)
unfolding encode_bytes
encode_bytes-IsVisible [] h = tt
encode_bytes-IsVisible (b ∷ bs) (hb, hbs) =
    All-append _ (encode_byte b) (encode_bytes bs) (encode_byte-IsVisible b hb)
      (encode_bytes-IsVisible bs hbs)

decode_plain :
    (b : ℕ) (bs : Bytes) → eqb b b'%' ≡ false → decode_bytes (b ∷ bs) ≡ b ∷ decode_bytes bs
unfolding decode_bytes
decode_plain b [] h = refl
decode_plain b (x ∷ []) h = refl
decode_plain b (x ∷ y ∷ bs) h = ground arith

decode_escaped :
    (h l v : ℕ) (bs : Bytes)
    → from_str_radix (h ∷ l ∷ []) ≡ ok v
    → decode_bytes (b'%' ∷ h ∷ l ∷ bs) ≡ v ∷ decode_bytes bs
unfolding decode_bytes
decode_escaped h l v bs e = ground arith

pub decode_bytes-encode_bytes : (bs : Bytes) → AreBytes bs → decode_bytes (encode_bytes bs) ≡ bs
unfolding encode_bytes decode_bytes
decode_bytes-encode_bytes [] h = refl
decode_bytes-encode_bytes (b ∷ bs) (hb, hbs) = elim (Bool-cases (is_plain_byte b)) [
  | inl plain ↦
      rw (plain, encode_byte)
        (decode_plain b (encode_bytes bs) (unescaped b plain)
          ∙ ap (◌∷◌ b) (decode_bytes-encode_bytes bs hbs))
  | inr other ↦
      rw (other, encode_byte)
        (decode_escaped (upper_hex (b / 16)) (upper_hex (b % 16)) b (encode_bytes bs)
            (from_str_radix-upper_hex b hb)
          ∙ ap (◌∷◌ b) (decode_bytes-encode_bytes bs hbs))
]
  where
    unescaped : (b : ℕ) → is_plain_byte b ≡ true → eqb b b'%' ≡ false
    unescaped b h = ground arith
