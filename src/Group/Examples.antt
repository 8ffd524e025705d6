-- ===== src/Group/Examples.antt =====
-- A group and a cipher that adds sixteen zeros.
use zsync.Base.{
  length, drop, replicate, Bytes, Text, codes, text_eq, nat_eq, ok, ◌+◌, ◌≡◌, refl, sym, ap, Option,
  none, some, [], ◌∷◌, ◌++◌, arith,
}
use zsync.Base.Words.{AreBytes}
use zsync.Group.{trim, to_digit, from_str_radix, pairs, parse_group_id, Aead, seal, envelope_ver}
use zsync.Group.Uris.{split_host_port, show_u16}
use zsync.Group.Envelopes.{fields}

abbrev pub id : Bytes
id = 0xab ∷ 1 ∷ 2 ∷ 3 ∷ 4 ∷ 5 ∷ 6 ∷ 7 ∷ 8 ∷ 9 ∷ 10 ∷ 11 ∷ 12 ∷ 13 ∷ 14 ∷ 0xff ∷ []

id-AreBytes : AreBytes id
id-AreBytes = ground arith

abbrev typed : Text
typed = codes " AB0102030405060708090a0B0c0d0eFF "

typed-id : parse_group_id typed ≡ ok id
unfolding parse_group_id trim pairs from_str_radix to_digit
typed-id = refl

abbrev pub zeros : Bytes
zeros = replicate 16 0

abbrev body_of : Option Bytes → Bytes
body_of none = []
body_of (some c) = c

length_of : (msg ct : Bytes) → some (zeros ++ msg) ≡ some ct → length ct ≡ length msg + 16
length_of msg ct h = omega (arith, ap (λ o. length (body_of o)) h)

unfoldable pub plain : Aead
unfolding length_of
plain = record {
  encrypt = λ key nonce aad msg. some (zeros ++ msg);
  decrypt = λ key nonce aad ct. some (drop 16 ct);
  decrypt-encrypt = λ key nonce aad msg ct h. ap (λ o. some (drop 16 (body_of o))) (sym h);
  length-encrypt = λ key nonce aad msg ct h. length_of msg ct h;
}

abbrev pub aead_key : Bytes → Option Bytes
aead_key secret = some secret

abbrev pub nonce : Bytes
nonce = replicate 24 5

abbrev sealed : Bytes
sealed = envelope_ver ∷ fields id nonce (zeros ++ codes "hello") 300

sealed-ok : seal plain aead_key (codes "secret") id id 300 nonce (codes "hello") ≡ ok sealed
unfolding seal plain
sealed-ok = refl

split_bracketed : split_host_port (codes "[::1]:8080") ≡ ok (codes "::1", 8080)
unfolding split_host_port
split_bracketed = refl

split_bare : split_host_port (codes "fe80::1") ≡ ok (codes "fe80::1", 43721)
unfolding split_host_port
split_bare = refl

shown_port : show_u16 43721 ≡ codes "43721"
unfolding show_u16
shown_port = refl
