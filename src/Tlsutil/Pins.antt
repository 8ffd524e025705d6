-- ===== src/Tlsutil/Pins.antt =====
-- What the pins promise over many connections.
use zsync.Base.{
  if◌then◌else◌, Bool-cases, Option-cases, length, Bytes, Text, text_beq, text_beq_iff, text_eq,
  text_len, Result-cases, Result, ◌==◌, nat_eq, ok, err, ◌*◌, ◌≡◌, ◌≢◌, ◌⊎◌, All, sym, refl, ap,
  ◌∙◌, subst, inl, inr, Bool, true, false, none, some, List, [], ◌∷◌,
}
use zsync.Base.Map.{Map, lookup, insert, eq_refl, lookup-insert}
use zsync.Base.Words.{AreBytes}
use zsync.Protocol.{hex_encode, length-hex_encode}
use zsync.Group.{pairs}
use zsync.Group.Ids.{hex_encode-hex, pairs-hex_encode, text_len-hex}
use zsync.Tlsutil.{
  PinsFile, pins_of, PinWrite, saved, untouched, cut, PinError, unreadable, certificate_refused,
  no_handshake, not_saved, decode_pin, load_pin, save_pin, verify_server_cert, connect_pinned,
}

decode_pin-hex_encode :
    (pin : Bytes) → AreBytes pin → length pin ≡ 32 → decode_pin (hex_encode pin) ≡ ok (some pin)
unfolding decode_pin
decode_pin-hex_encode pin bytes size =
    let hex = hex_encode-hex pin bytes in
    let width : text_len (hex_encode pin) ≡ 64 =
      text_len-hex (hex_encode pin) hex ∙ length-hex_encode pin ∙ ap (λ n. 2 * n) size in
    let read : pairs 32 (hex_encode pin) ≡ ok pin =
      subst (λ n. pairs n (hex_encode pin) ≡ ok pin) size (pairs-hex_encode pin bytes) in
    rw (width, hex, read) refl

saved_found :
    (pins : Map Text Text) (hub other : Text) (pin : Bytes)
    → AreBytes pin
    → length pin ≡ 32
    → load_pin (some (some (insert hub (hex_encode pin) pins))) other
      ≡ (if hub == other then ok (some pin) else load_pin (some (some pins)) other)
unfolding load_pin
saved_found pins hub other pin bytes size =
    rw (lookup-insert hub other (hex_encode pin) pins, load_pin)
      (elim (Bool-cases (text_beq hub other)) [
        | inl same ↦ rw same (decode_pin-hex_encode pin bytes size)
        | inr differs ↦ rw differs refl
      ])

load_pin-pins_of :
    (file : PinsFile) (hub : Text) (pin : Bytes)
    → load_pin file hub ≡ ok (some pin)
    → load_pin (some (some (pins_of file))) hub ≡ ok (some pin)
unfolding load_pin lookup
load_pin-pins_of none hub pin h = absurd (cc)
load_pin-pins_of (some none) hub pin h = absurd (cc)
load_pin-pins_of (some (some pins)) hub pin h = h

-- A connection to a hub, which shows a certificate and completes the handshake or not; the file as
-- it was when the connection read its pin; and what becomes of its write.
pub record Attempt : Type 0 where
  pub hub : Text
  pub loaded : PinsFile
  pub cert : Bytes
  pub completes : Bool
  pub write : PinWrite

-- The write is not cut off, and a connection to this hub read its pin.
abbrev pub Harmless : Text → Attempt → Type 0
Harmless hub a = (a.write ≢ cut) × ((a.hub ≢ hub) ⊎ (load_pin a.loaded hub ≢ ok none))

module _ (sha256 : Bytes → Bytes) where
  -- The file behind this connection.
  abbrev pub connection : PinsFile → Attempt → PinsFile
  connection file a = (connect_pinned sha256 a.loaded file a.hub a.cert a.completes a.write).0

  -- The file after these connections, in the order of their ends.
  unfoldable pub connections : PinsFile → List Attempt → PinsFile
  connections file [] = file
  connections file (a ∷ rest) = connections (connection file a) rest

  -- With a pin, the certificate decides; the file stays as it is.
  pinned_connection :
      (loaded file : PinsFile) (hub : Text) (pin cert : Bytes) (completes : Bool) (write : PinWrite)
      → load_pin loaded hub ≡ ok (some pin)
      → ((connect_pinned sha256 loaded file hub cert completes write).0 ≡ file)
        × ((connect_pinned sha256 loaded file hub cert completes write).1 ≡ (
            if pin == sha256 cert
            then (if completes then ok tt else err no_handshake)
            else err certificate_refused))
  unfolding connect_pinned verify_server_cert
  pinned_connection loaded file hub pin cert true write h =
      elim (Bool-cases (text_beq pin (sha256 cert))) [
        | inl y ↦ rw (h, connect_pinned, y) (refl, refl)
        | inr n ↦ rw (h, connect_pinned, n) (refl, refl)
      ]
  pinned_connection loaded file hub pin cert false write h =
      elim (Bool-cases (text_beq pin (sha256 cert))) [
        | inl y ↦ rw (h, connect_pinned, y) (refl, refl)
        | inr n ↦ rw (h, connect_pinned, n) (refl, refl)
      ]

  unreadable_connection :
      (loaded file : PinsFile) (hub : Text) (e : PinError) (cert : Bytes) (completes : Bool)
      (write : PinWrite)
      → load_pin loaded hub ≡ err e
      → (connect_pinned sha256 loaded file hub cert completes write).0 ≡ file
  unfolding connect_pinned
  unreadable_connection loaded file hub e cert completes write h = rw (connect_pinned, h) refl

  -- Without a pin, a handshake that completes saves one.
  first_connection :
      (loaded file : PinsFile) (hub : Text) (cert : Bytes) (completes : Bool) (write : PinWrite)
      → load_pin loaded hub ≡ ok none
      → let out = connect_pinned sha256 loaded file hub cert completes write in
        let put = save_pin file hub (sha256 cert) write in
        (out.0 ≡ (if completes then put.0 else file))
        × (out.1
            ≡ (if completes then (if put.1 then ok tt else err not_saved) else err no_handshake))
  unfolding connect_pinned verify_server_cert
  first_connection loaded file hub cert true write h = rw (h, connect_pinned) (refl, refl)
  first_connection loaded file hub cert false write h = rw (h, connect_pinned) (refl, refl)

-- What SHA-256 gives: 32 bytes.
abbrev pub IsDigest : (Bytes → Bytes) → Type 0
IsDigest sha256 = (b : Bytes) → AreBytes (sha256 b) × (length (sha256 b) ≡ 32)

failed : (r : Result PinError (Unit {0})) → r ≡ err not_saved → r ≡ ok tt → ⊥
failed r bad good = cc

module _ (sha256 : Bytes → Bytes) (digest : IsDigest sha256) where
  -- A write for another hub, which is not cut off, keeps the pin.
  saving_keeps :
      (file : PinsFile) (hub other : Text) (pin cert : Bytes) (write : PinWrite)
      → hub ≢ other
      → write ≢ cut
      → load_pin file other ≡ ok (some pin)
      → load_pin (save_pin file hub (sha256 cert) write).0 other ≡ ok (some pin)
  unfolding save_pin
  saving_keeps file hub other pin cert untouched differ whole h = h
  saving_keeps file hub other pin cert cut differ whole h = absurd (whole refl)
  saving_keeps file hub other pin cert saved differ whole h =
      saved_found (pins_of file) hub other (sha256 cert) (digest cert).0 (digest cert).1
      ∙ elim (Bool-cases (text_beq hub other)) [
        | inl same ↦ absurd (differ ((text_beq_iff hub other).0 same))
        | inr differs ↦ rw differs (load_pin-pins_of file other pin h)
      ]

  other_hub :
      (hub : Text) (a : Attempt) → Harmless hub a → load_pin a.loaded a.hub ≡ ok none → a.hub ≢ hub
  other_hub hub a (whole, inl differ) unpinned same = differ same
  other_hub hub a (whole, inr pinned) unpinned same =
      pinned (ap (load_pin a.loaded) (sym same) ∙ unpinned)

  connection_keeps :
      (file : PinsFile) (hub : Text) (pin : Bytes) (a : Attempt)
      → Harmless hub a
      → load_pin file hub ≡ ok (some pin)
      → load_pin (connection sha256 file a) hub ≡ ok (some pin)
  connection_keeps file hub pin a harmless h = elim (Result-cases (load_pin a.loaded a.hub)) [
    | inl (e, bad) ↦
        ap (λ f. load_pin f hub)
          (unreadable_connection sha256 a.loaded file a.hub e a.cert a.completes a.write bad)
        ∙ h
    | inr (o, good) ↦ elim (Option-cases o) [
      | inl absent ↦
          let unpinned = good ∙ ap ok absent in
          ap (λ f. load_pin f hub)
            (first_connection sha256 a.loaded file a.hub a.cert a.completes a.write unpinned).0
          ∙ elim (Bool-cases a.completes) [
            | inl y ↦ rw y (
                saving_keeps file a.hub hub pin a.cert a.write (other_hub hub a harmless unpinned)
                  harmless.0 h)
            | inr n ↦ rw n h
          ]
      | inr (p, there) ↦
          ap (λ f. load_pin f hub)
            (pinned_connection sha256 a.loaded file a.hub p a.cert a.completes a.write
              (good ∙ ap ok there)).0
          ∙ h
    ]
  ]

  connections_keep :
      (file : PinsFile) (hub : Text) (pin : Bytes) (attempts : List Attempt)
      → All (Harmless hub) attempts
      → load_pin file hub ≡ ok (some pin)
      → load_pin (connections sha256 file attempts) hub ≡ ok (some pin)
  unfolding connections
  connections_keep file hub pin [] harmless h = h
  connections_keep file hub pin (a ∷ rest) (one, more) h =
      connections_keep (connection sha256 file a) hub pin rest more
        (connection_keeps file hub pin a one h)

  -- A connection that succeeds without a pin has saved one.
  pub pin_saved :
      (loaded file : PinsFile) (hub : Text) (cert : Bytes) (write : PinWrite)
      → load_pin loaded hub ≡ ok none
      → (connect_pinned sha256 loaded file hub cert true write).1 ≡ ok tt
      → load_pin (connect_pinned sha256 loaded file hub cert true write).0 hub
        ≡ ok (some (sha256 cert))
  unfolding save_pin
  pin_saved loaded file hub cert saved unpinned done =
      ap (λ f. load_pin f hub) (first_connection sha256 loaded file hub cert true saved unpinned).0
      ∙ saved_found (pins_of file) hub hub (sha256 cert) (digest cert).0 (digest cert).1
      ∙ rw (eq_refl hub) refl
  pin_saved loaded file hub cert untouched unpinned done =
      absurd
        (failed _ (first_connection sha256 loaded file hub cert true untouched unpinned).1 done)
  pin_saved loaded file hub cert cut unpinned done =
      absurd (failed _ (first_connection sha256 loaded file hub cert true cut unpinned).1 done)

  cut_off :
      (loaded file : PinsFile) (hub any_hub : Text) (cert : Bytes)
      → load_pin loaded hub ≡ ok none
      → load_pin (connect_pinned sha256 loaded file hub cert true cut).0 any_hub ≡ err unreadable
  unfolding save_pin load_pin
  cut_off loaded file hub any_hub cert unpinned =
      ap (λ f. load_pin f any_hub)
        (first_connection sha256 loaded file hub cert true cut unpinned).0

  -- A leaf connects to a hub of which it read no pin, and the connection succeeds. Other
  -- connections end after it, to this and to other hubs, whatever certificates they show, where no
  -- write of the file is cut off, and those to this hub had read a pin of it, or had failed to.
  -- Then a connection to the hub, which reads its pin behind them, succeeds exactly with a
  -- certificate of the same fingerprint, where the handshake completes with an accepted
  -- certificate; with another one it is refused. But where the write of the first connection is cut
  -- off, the file cannot be read behind it, whatever hub is looked up. Of the digest it is assumed
  -- that it gives 32 bytes.
  pub first_certificate_stays :
      (loaded file file' : PinsFile) (hub any_hub : Text) (cert other : Bytes)
      (write write' : PinWrite) (attempts : List Attempt)
      → load_pin loaded hub ≡ ok none
      → (connect_pinned sha256 loaded file hub cert true write).1 ≡ ok tt
      → All (Harmless hub) attempts
      → let later =
          connections sha256 (connect_pinned sha256 loaded file hub cert true write).0 attempts in
        ((connect_pinned sha256 later file' hub other true write').1
          ≡ (if sha256 cert == sha256 other then ok tt else err certificate_refused))
        × (load_pin (connect_pinned sha256 loaded file hub cert true cut).0 any_hub
            ≡ err unreadable)
  first_certificate_stays loaded file file' hub any_hub cert other write write' attempts unpinned
        done harmless =
      let pinned = (connect_pinned sha256 loaded file hub cert true write).0 in
      (
        (pinned_connection sha256 (connections sha256 pinned attempts) file' hub (sha256 cert) other
            true write'
            (connections_keep pinned hub (sha256 cert) attempts harmless
              (pin_saved loaded file hub cert write unpinned done))).1,
        cut_off loaded file hub any_hub cert unpinned,
      )
