-- ===== src/Base/Utf8.antt =====
-- UTF-8 as the source uses it: `str::as_bytes`, `String::from_utf8_lossy` and `str::from_utf8`.
use zsync.Base.Tests.{ltb, leb, eqb, if◌then◌else◌}
use zsync.Base.Lists.{All}
use zsync.Base.Strings.{Bytes, Text}
use Prim.Native.Nat.{ℕ, zero, suc, ◌+◌, ◌*◌, ◌/◌, ◌%◌, ◌<◌, ◌≤◌}
use mathlib.Core.Path.{◌≡◌, refl, ap, ◌∙◌}
use mathlib.Core.Logic.{◌⊎◌}
use mathlib.Core.Bool.{◌&&◌}
use mathlib.Core.Option.{Option, none, some}
use mathlib.Core.List.{[], ◌∷◌, ◌++◌, append_assoc}
use native.Mathlib.Omega.{arith}

-- What a byte may start: how many bytes follow, and the range of the next one.
unfoldable pub lead : ℕ → Option (ℕ × ℕ × ℕ)
lead b =
    if ltb b 0x80
    then some (0, 0x80, 0xbf)
    else if ltb b 0xc2
    then none
    else if ltb b 0xe0
    then some (1, 0x80, 0xbf)
    else if eqb b 0xe0
    then some (2, 0xa0, 0xbf)
    else if eqb b 0xed
    then some (2, 0x80, 0x9f)
    else if ltb b 0xf0
    then some (2, 0x80, 0xbf)
    else if eqb b 0xf0
    then some (3, 0x90, 0xbf)
    else if ltb b 0xf4
    then some (3, 0x80, 0xbf)
    else if eqb b 0xf4
    then some (3, 0x80, 0x8f)
    else none

abbrev pub replacement : ℕ
replacement = 0xfffd

-- The bits of a first byte that `n` bytes follow.
abbrev pub payload_bits : ℕ → ℕ → ℕ
payload_bits zero b = b
payload_bits (suc zero) b = b % 32
payload_bits (suc (suc zero)) b = b % 16
payload_bits (suc (suc (suc n))) b = b % 8

-- A first byte and what it may start; `rest` decodes what follows, with the number of bytes to
-- come, the range of the next one and the bits so far.
abbrev pub started : Option (ℕ × ℕ × ℕ) → ℕ → (ℕ → ℕ → ℕ → ℕ → Text) → Text
started none b rest = replacement ∷ rest 0 0 0 0
started (some (zero, lo, hi)) b rest = b ∷ rest 0 0 0 0
started (some (suc m, lo, hi)) b rest = rest (suc m) lo hi (payload_bits (suc m) b)

-- The bytes that a sequence has before it breaks off are one replacement character.
unfoldable pub decode_from : Bytes → ℕ → ℕ → ℕ → ℕ → Text
decode_from [] zero lo hi acc = []
decode_from [] (suc n) lo hi acc = replacement ∷ []
decode_from (b ∷ bs) zero lo hi acc = started (lead b) b (decode_from bs)
decode_from (b ∷ bs) (suc zero) lo hi acc =
    if leb lo b && leb b hi
    then (acc * 64 + b % 64) ∷ decode_from bs 0 0 0 0
    else replacement ∷ started (lead b) b (decode_from bs)
decode_from (b ∷ bs) (suc (suc n)) lo hi acc =
    if leb lo b && leb b hi
    then decode_from bs (suc n) 0x80 0xbf (acc * 64 + b % 64)
    else replacement ∷ started (lead b) b (decode_from bs)

abbrev pub from_utf8_lossy : Bytes → Text
from_utf8_lossy b = decode_from b 0 0 0 0

unfoldable pub encode_char : ℕ → Bytes
encode_char c =
    if ltb c 0x80
    then c ∷ []
    else if ltb c 0x800
    then (0xc0 + c / 64) ∷ (0x80 + c % 64) ∷ []
    else if ltb c 0x10000
    then (0xe0 + c / 4096) ∷ (0x80 + c / 64 % 64) ∷ (0x80 + c % 64) ∷ []
    else (0xf0 + c / 262144) ∷ (0x80 + c / 4096 % 64) ∷ (0x80 + c / 64 % 64) ∷ (0x80 + c % 64) ∷ []

unfoldable pub as_bytes : Text → Bytes
as_bytes [] = []
as_bytes (c ∷ s) = encode_char c ++ as_bytes s

-- A `char`: a code point that is no surrogate.
abbrev pub IsChar : ℕ → Type 0
IsChar c = (c < 0x110000) × ((c < 0xd800) ⊎ (0xdfff < c))

pub lead_one : (b : ℕ) → b < 0x80 → lead b ≡ some (0, 0x80, 0xbf)
unfolding lead
lead_one b h = ground arith

lead_two : (b : ℕ) → 0xc2 ≤ b → b < 0xe0 → lead b ≡ some (1, 0x80, 0xbf)
unfolding lead
lead_two b h k = ground arith

lead_three :
    (b : ℕ)
    → 0xe0 ≤ b
    → b < 0xf0
    → lead b ≡ some (2, (if eqb b 0xe0 then 0xa0 else 0x80), (if eqb b 0xed then 0x9f else 0xbf))
unfolding lead
lead_three b h k = ground arith

lead_four :
    (b : ℕ)
    → 0xf0 ≤ b
    → b < 0xf5
    → lead b ≡ some (3, (if eqb b 0xf0 then 0x90 else 0x80), (if eqb b 0xf4 then 0x8f else 0xbf))
unfolding lead
lead_four b h k = ground arith

-- A byte that continues a sequence.
last_byte :
    (lo hi acc b : ℕ) (bs : Bytes)
    → lo ≤ b
    → b ≤ hi
    → decode_from (b ∷ bs) 1 lo hi acc ≡ (acc * 64 + b % 64) ∷ from_utf8_lossy bs
unfolding decode_from
last_byte lo hi acc b bs h k = ground arith

inner_byte :
    (n lo hi acc b : ℕ) (bs : Bytes)
    → lo ≤ b
    → b ≤ hi
    → decode_from (b ∷ bs) (suc (suc n)) lo hi acc
      ≡ decode_from bs (suc n) 0x80 0xbf (acc * 64 + b % 64)
unfolding decode_from
inner_byte n lo hi acc b bs h k = ground arith

decode_one : (c : ℕ) (bs : Bytes) → c < 0x80 → from_utf8_lossy (c ∷ bs) ≡ c ∷ from_utf8_lossy bs
unfolding decode_from
decode_one c bs h = rw (lead_one c h) refl

decode_two :
    (c : ℕ) (bs : Bytes)
    → 0x80 ≤ c
    → c < 0x800
    → from_utf8_lossy ((0xc0 + c / 64) ∷ (0x80 + c % 64) ∷ bs) ≡ c ∷ from_utf8_lossy bs
unfolding decode_from
decode_two c bs h k = rw (lead_two (0xc0 + c / 64) (omega arith) (omega arith)) (
    last_byte 0x80 0xbf ((0xc0 + c / 64) % 32) (0x80 + c % 64) bs (omega arith) (omega arith)
    ∙ ap (λ d. d ∷ from_utf8_lossy bs) (omega arith))

decode_three :
    (c : ℕ) (bs : Bytes)
    → 0x800 ≤ c
    → c < 0x10000
    → (c < 0xd800) ⊎ (0xdfff < c)
    → from_utf8_lossy ((0xe0 + c / 4096) ∷ (0x80 + c / 64 % 64) ∷ (0x80 + c % 64) ∷ bs)
      ≡ c ∷ from_utf8_lossy bs
unfolding decode_from
decode_three c bs h k scalar = rw (lead_three (0xe0 + c / 4096) (omega arith) (omega arith)) (
    inner_byte 0 _ _ ((0xe0 + c / 4096) % 16) (0x80 + c / 64 % 64) ((0x80 + c % 64) ∷ bs)
      (ground arith) (ground arith)
    ∙ last_byte 0x80 0xbf ((0xe0 + c / 4096) % 16 * 64 + (0x80 + c / 64 % 64) % 64) (0x80 + c % 64)
        bs (omega arith) (omega arith)
    ∙ ap (λ d. d ∷ from_utf8_lossy bs) (omega arith))

decode_four :
    (c : ℕ) (bs : Bytes)
    → 0x10000 ≤ c
    → c < 0x110000
    → from_utf8_lossy
        ((0xf0 + c / 262144) ∷ (0x80 + c / 4096 % 64) ∷ (0x80 + c / 64 % 64) ∷ (0x80 + c % 64) ∷ bs)
      ≡ c ∷ from_utf8_lossy bs
unfolding decode_from
decode_four c bs h k = rw (lead_four (0xf0 + c / 262144) (omega arith) (omega arith)) (
    inner_byte 1 _ _ ((0xf0 + c / 262144) % 8) (0x80 + c / 4096 % 64)
      ((0x80 + c / 64 % 64) ∷ (0x80 + c % 64) ∷ bs) (ground arith) (ground arith)
    ∙ inner_byte 0 0x80 0xbf ((0xf0 + c / 262144) % 8 * 64 + (0x80 + c / 4096 % 64) % 64)
        (0x80 + c / 64 % 64) ((0x80 + c % 64) ∷ bs) (omega arith) (omega arith)
    ∙ last_byte 0x80 0xbf
        (((0xf0 + c / 262144) % 8 * 64 + (0x80 + c / 4096 % 64) % 64) * 64
          + (0x80 + c / 64 % 64) % 64)
        (0x80 + c % 64) bs (omega arith) (omega arith)
    ∙ ap (λ d. d ∷ from_utf8_lossy bs) (omega arith))

decode-encode_char :
    (c : ℕ) (bs : Bytes) → IsChar c → from_utf8_lossy (encode_char c ++ bs) ≡ c ∷ from_utf8_lossy bs
unfolding encode_char
decode-encode_char c bs (range, scalar) =
    ground (arith, decode_one c bs, decode_two c bs, decode_three c bs, decode_four c bs)

-- Every text is read back from its bytes, with whatever follows them.
pub from_utf8_lossy-as_bytes :
    (s : Text) (bs : Bytes)
    → All IsChar s
    → from_utf8_lossy (as_bytes s ++ bs) ≡ s ++ from_utf8_lossy bs
unfolding as_bytes
from_utf8_lossy-as_bytes [] bs h = refl
from_utf8_lossy-as_bytes (c ∷ s) bs (hc, hs) =
    ap from_utf8_lossy (append_assoc (encode_char c) (as_bytes s) bs)
    ∙ decode-encode_char c (as_bytes s ++ bs) hc
    ∙ ap (◌∷◌ c) (from_utf8_lossy-as_bytes s bs hs)
