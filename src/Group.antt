-- ===== src/Group.antt =====
-- src/group.rs: group ids, and the envelopes in which clips cross the relay. The AEAD, the key
-- derivation and the random nonce are arguments.
pub mod Ids
pub mod Envelopes
pub mod Uris
pub mod Keys
pub mod Examples
use zsync.Base.{
  ltb, leb, eqb, if◌then◌else◌, ltb→lt, lt→ltb, le→ltb, leb→le, eqb_iff, Bool-cases, Option-cases,
  length, get_or, take, drop, replicate, is_empty, any, all, keep, All, length-append, length-drop,
  length-take, take-append, drop-append, take-append-drop, take-length, any-append, length-keep-le,
  Bytes, Text, codes, text_beq, text_beq_iff, text_eq, starts_with, utf8_width, text_len, ◌>>=◌,
  ◌>>◌, fail_if, or_fail, Result-cases, Result, Eq, ◌==◌, nat_eq, ok, err, ℕ, zero, suc, ◌+◌, ◌-◌,
  ◌*◌, ◌/◌, ◌%◌, ◌^◌, ◌≤◌, ◌<◌, min, max, ◌≡◌, refl, sym, ap, ap₂, ◌∙◌, subst, ◌≢◌, ◌↔◌, ◌⊎◌, inl,
  inr, Bool, true, false, not, ◌&&◌, ◌||◌, Option, none, some, List, [], ◌∷◌, ◌++◌, map,
  append_assoc, append-nil, arith,
}
use zsync.Base.Words.{u64_be, from_be}

abbrev pub group_id_len : ℕ
group_id_len = 16

abbrev pub sender_len : ℕ
sender_len = 16

abbrev pub envelope_ver : ℕ
envelope_ver = 1

pub data GroupError : Type 0 where
  bad_group_id short_node_id bad_digits : GroupError
  no_key encrypt_failed truncated : GroupError
  bad_envelope : ℕ → GroupError
  decrypt_failed : GroupError

-- `char::is_whitespace`.
abbrev pub is_whitespace : ℕ → Bool
is_whitespace c =
    (leb 9 c && leb c 13)
    || c == 32
    || c == 0x85
    || c == 0xA0
    || c == 0x1680
    || (leb 0x2000 c && leb c 0x200A)
    || c == 0x2028
    || c == 0x2029
    || c == 0x202F
    || c == 0x205F
    || c == 0x3000

abbrev pub trim_start : Text → Text
trim_start [] = []
trim_start (c ∷ s) = if is_whitespace c then trim_start s else c ∷ s

abbrev pub trim_end : Text → Text
trim_end [] = []
trim_end (c ∷ s) =
    let rest = trim_end s in if is_empty rest && is_whitespace c then [] else c ∷ rest

unfoldable pub trim : Text → Text
trim s = trim_end (trim_start s)

-- `char::to_digit(16)`.
unfoldable pub to_digit : ℕ → Option ℕ
to_digit c =
    if leb b'0' c && leb c b'9'
    then some (c - b'0')
    else if leb b'a' c && leb c b'f'
    then some (c - b'a' + 10)
    else if leb b'A' c && leb c b'F'
    then some (c - b'A' + 10)
    else none

abbrev pub is_ascii_hexdigit : ℕ → Bool
is_ascii_hexdigit c =
    (leb b'0' c && leb c b'9') || (leb b'a' c && leb c b'f') || (leb b'A' c && leb c b'F')

-- The loop of `u8::from_str_radix`, with the value of the digits before.
digits : ℕ → Text → Result GroupError ℕ
unfolding to_digit
digits acc [] = ok acc
digits acc (c ∷ s) = do
  d ← or_fail (to_digit c) bad_digits
  fail_if (leb 256 (acc * 16 + d)) bad_digits
  digits (acc * 16 + d) s

-- `u8::from_str_radix(s, 16)`, which takes a sign.
unfoldable pub from_str_radix : Text → Result GroupError ℕ
unfolding digits
from_str_radix [] = err bad_digits
from_str_radix (c ∷ []) = if c == b'+' then err bad_digits else digits 0 (c ∷ [])
from_str_radix (c ∷ d ∷ s) = if c == b'+' then digits 0 (d ∷ s) else digits 0 (c ∷ d ∷ s)

-- The loop over the pairs of digits of an id with `n` bytes.
unfoldable pub pairs : ℕ → Text → Result GroupError Bytes
unfolding from_str_radix
pairs zero s = ok []
pairs (suc n) s = do b ← from_str_radix (take 2 s); bs ← pairs n (drop 2 s); ok (b ∷ bs)

unfoldable pub parse_group_id : Text → Result GroupError Bytes
unfolding pairs trim
parse_group_id s = do
  let t = trim s
  fail_if (not (text_len t == group_id_len * 2) || not (all is_ascii_hexdigit t)) bad_group_id
  pairs group_id_len t

-- A character outside ASCII in the first half is refused here as a digit.
unfoldable pub sender_from_node_id : Text → Result GroupError Bytes
unfolding pairs trim
sender_from_node_id node_id = do
  let s = trim node_id
  fail_if (ltb (text_len s) (sender_len * 2)) short_node_id
  pairs sender_len s

-- XChaCha20-Poly1305: what was encrypted is decrypted under the same key, nonce and associated
-- data, and is longer by a tag of 16 bytes.
pub record Aead : Type 0 where
  pub encrypt : Bytes → Bytes → Bytes → Bytes → Option Bytes
  pub decrypt : Bytes → Bytes → Bytes → Bytes → Option Bytes
  pub decrypt-encrypt :
      (key nonce aad msg ct : Bytes)
      → encrypt key nonce aad msg ≡ some ct
      → decrypt key nonce aad ct ≡ some msg
  pub length-encrypt :
      (key nonce aad msg ct : Bytes)
      → encrypt key nonce aad msg ≡ some ct
      → length ct ≡ length msg + 16

pub record Opened : Type 0 where
  pub sender : Bytes
  pub counter : ℕ
  pub plaintext : Bytes

-- `aead_key` derives the key of the cipher by HKDF, from a secret.
module _ (aead : Aead) (aead_key : Bytes → Option Bytes) where
  unfoldable pub seal : Bytes → Bytes → Bytes → ℕ → Bytes → Bytes → Result GroupError Bytes
  seal secret group_id sender counter nonce plaintext = do
    key ← or_fail (aead_key secret) no_key
    let ad = group_id ++ sender ++ u64_be counter
    ct ← or_fail (aead.encrypt key nonce ad plaintext) encrypt_failed
    ok (envelope_ver ∷ (sender ++ (u64_be counter ++ (nonce ++ ct))))

  unfoldable pub open_envelope : Bytes → Bytes → Bytes → Result GroupError Opened
  open_envelope secret group_id envelope = do
    fail_if (ltb (length envelope) (1 + sender_len + 8 + 24 + 16)) truncated
    fail_if (not (get_or envelope 0 0 == envelope_ver)) (bad_envelope (get_or envelope 0 0))
    let sender = take sender_len (drop 1 envelope)
    let counter = from_be 0 (take 8 (drop (1 + sender_len) envelope))
    let nonce = take 24 (drop (1 + sender_len + 8) envelope)
    let ct = drop (1 + sender_len + 8 + 24) envelope
    key ← or_fail (aead_key secret) no_key
    let ad = group_id ++ sender ++ u64_be counter
    plaintext ← or_fail (aead.decrypt key nonce ad ct) decrypt_failed
    ok (record { sender = sender; counter = counter; plaintext = plaintext })
