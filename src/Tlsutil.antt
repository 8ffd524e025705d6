-- ===== src/Tlsutil.antt =====
-- src/tlsutil.rs: the fingerprints of the relay servers, which a leaf keeps from its first
-- connection on. The digest is an argument; rustls shows the certificate to the verifier, and
-- completes the handshake only with the key of that certificate.
pub mod Pins
mod Examples
use zsync.Base.{
  ltb, leb, eqb, if◌then◌else◌, ltb→lt, lt→ltb, le→ltb, leb→le, eqb_iff, Bool-cases, Option-cases,
  length, get_or, take, drop, replicate, is_empty, any, all, keep, All, length-append, length-drop,
  length-take, take-append, drop-append, take-append-drop, take-length, any-append, length-keep-le,
  Bytes, Text, codes, text_beq, text_beq_iff, text_eq, starts_with, utf8_width, text_len, ◌>>=◌,
  ◌>>◌, fail_if, or_fail, Result-cases, Result, Eq, ◌==◌, nat_eq, ok, err, ℕ, zero, suc, ◌+◌, ◌-◌,
  ◌*◌, ◌/◌, ◌%◌, ◌^◌, ◌≤◌, ◌<◌, min, max, ◌≡◌, refl, sym, ap, ap₂, ◌∙◌, subst, ◌≢◌, ◌↔◌, ◌⊎◌, inl,
  inr, Bool, true, false, not, ◌&&◌, ◌||◌, Option, none, some, List, [], ◌∷◌, ◌++◌, map,
  append_assoc, append-nil, arith,
}
use zsync.Base.Map.{
  Map, lookup, insert, remove, retain, eq_refl, lookup-insert, lookup-remove, Distinct,
}
use zsync.Protocol.{hex_encode}
use zsync.Group.{GroupError, is_ascii_hexdigit, pairs}

-- The file of the pins: none where there is no file, and what serde_json reads from it.
abbrev pub PinsFile : Type 0
PinsFile = Option (Option (Map Text Text))

pub data PinError : Type 0 where
  unreadable corrupt_pin no_handshake certificate_refused not_saved : PinError
  bad_hex : GroupError → PinError

-- The text of a pin, which the file has for a hub.
unfoldable pub decode_pin : Text → Result PinError (Option Bytes)
decode_pin hex =
    if not (text_len hex == 64) || not (all is_ascii_hexdigit hex)
    then err corrupt_pin
    else (elim (pairs 32 hex) [ err e ↦ err (bad_hex e) | ok pin ↦ ok (some pin) ])

unfoldable pub load_pin : PinsFile → Text → Result PinError (Option Bytes)
load_pin none hub = ok none
load_pin (some none) hub = err unreadable
load_pin (some (some pins)) hub = elim (lookup hub pins) [
  | none ↦ ok none
  | some hex ↦ decode_pin hex
]

-- `unwrap_or_default`.
abbrev pub pins_of : PinsFile → Map Text Text
pins_of (some (some pins)) = pins
pins_of _ = []

-- What becomes of a write in place: it is done, or it fails before the file is opened, or it fails
-- behind that, where the file is left empty or with a part, which serde_json does not read.
pub data PinWrite : Type 0 where
  saved untouched cut : PinWrite

unfoldable pub save_pin : PinsFile → Text → Bytes → PinWrite → PinsFile × Bool
save_pin file hub pin saved = (some (some (insert hub (hex_encode pin) (pins_of file))), true)
save_pin file hub pin untouched = (file, false)
save_pin file hub pin cut = (some none, false)

pub record TofuVerifier : Type 0 where
  pub expected : Option Bytes
  pub observed : Option Bytes

abbrev pub new : Option Bytes → TofuVerifier
new expected = record { expected = expected; observed = none }

module _ (sha256 : Bytes → Bytes) where
  -- The verifier with what it has seen, and whether it accepts the certificate.
  unfoldable pub verify_server_cert : TofuVerifier → Bytes → TofuVerifier × Bool
  verify_server_cert v end_entity =
      let got = sha256 end_entity in
      (record v { observed = some got }, elim v.expected [ none ↦ true | some want ↦ want == got ])

  -- A connection that needed no pin, or saves the one that it observed.
  abbrev pin_observed :
      PinsFile
      → Text
      → Option Bytes
      → Option Bytes
      → PinWrite
      → PinsFile × Result PinError (Unit {0})
  pin_observed file hub none (some got) write =
      let (file', done) = save_pin file hub got write in
      (file', (if done then ok tt else err not_saved))
  pin_observed file hub none none write = (file, ok tt)
  pin_observed file hub (some pin) observed write = (file, ok tt)

  -- The part of `run_relay_session` up to the end of the TLS handshake, which `completes` says of
  -- a certificate that is accepted. The file is `loaded` when the pin is read, and `file` behind
  -- the handshake: other connections may have written it between.
  unfoldable pub connect_pinned :
      PinsFile → PinsFile → Text → Bytes → Bool → PinWrite → PinsFile × Result PinError (Unit {0})
  connect_pinned loaded file hub cert completes write = elim (load_pin loaded hub) [
    | err e ↦ (file, err e)
    | ok pin ↦
        let (v, accepted) = verify_server_cert (new pin) cert in
        if not accepted
        then (file, err certificate_refused)
        else if not completes
        then (file, err no_handshake)
        else pin_observed file hub pin v.observed write
  ]
