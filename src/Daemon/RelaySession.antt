-- ===== src/Daemon/RelaySession.antt =====
-- The loop of `run_relay_session` (daemon.rs): a session with the relay server, once it has
-- acknowledged the join. The nonce of an envelope is an argument.
pub mod Delivery
use zsync.Base.{
  ltb, leb, eqb, if◌then◌else◌, ltb→lt, lt→ltb, le→ltb, leb→le, eqb_iff, Bool-cases, Option-cases,
  length, get_or, take, drop, replicate, is_empty, any, all, keep, All, length-append, length-drop,
  length-take, take-append, drop-append, take-append-drop, take-length, any-append, length-keep-le,
  Bytes, Text, codes, text_beq, text_beq_iff, text_eq, starts_with, utf8_width, text_len, ◌>>=◌,
  ◌>>◌, fail_if, or_fail, Result-cases, Result, Eq, ◌==◌, nat_eq, ok, err, ℕ, zero, suc, ◌+◌, ◌-◌,
  ◌*◌, ◌/◌, ◌%◌, ◌^◌, ◌≤◌, ◌<◌, min, max, ◌≡◌, refl, sym, ap, ap₂, ◌∙◌, subst, ◌≢◌, ◌↔◌, ◌⊎◌, inl,
  inr, Bool, true, false, not, ◌&&◌, ◌||◌, Option, none, some, List, [], ◌∷◌, ◌++◌, map,
  append_assoc, append-nil, arith,
}
use zsync.Protocol.{ProtoError, io, broken, early_eof, ClipMeta, Json}
use zsync.Protocol
use zsync.Protocol.Clips.{encode_clip_body, decode_clip, verify_clip}
use zsync.Clipboard.{Backend}
use zsync.Hub.{Hub, Outcome, Outbound, apply_from}
use zsync.Protocol.{hex_encode, ClipAck}
use zsync.Group.{Aead, GroupError, Opened, seal, open_envelope}
use zsync.Relay.{
  RelayType, join, join_ack, payload, ping, pong, error, bye, write_frame, read_frame,
}
use zsync.Protocol.Reading.{Poll, waiting, ready, broken_off, poll}
use zsync.Daemon.Session.{
  Session, SessionError, proto, of_hub, of_group, Progress, running, closed, failed, if_running,
  Event, stop_changed, tick, received, arrived, hung_up, Received, message, lagged, no_sender,
  end_with, send,
}

-- The session, and the number of the envelopes that it sealed.
pub record RelaySession (B : Type 0) : Type 0 where
  pub session : Session B
  pub counter : ℕ

-- The conversion of an error by `?`.
abbrev pub map_err {ℓ} : {E F : Type 0} {A : Type ℓ} → (E → F) → Result E A → Result F A
map_err f (ok a) = ok a
map_err f (err e) = err (f e)

module _ {B : Type 0} where
  unfoldable pub say_bye : Session B → Bool → Session B
  say_bye s writes = end_with (record (send s writes (write_frame [] bye [])) { held = [] }) closed

  -- An envelope is sent as the payload of a frame.
  unfoldable pub send_sealed : Session B → Bool → Result SessionError Bytes → Session B
  send_sealed s writes (ok env) = send s writes (write_frame [] payload env)
  send_sealed s writes (err e) = end_with s (failed e)

  -- After `apply_from(..)?`, whose answer is dropped.
  unfoldable pub keep_hub : Session B → Outcome B ClipAck → ℕ → Session B
  keep_hub s (hub, ok a) now = record s { hub = hub; last_sync = some now }
  keep_hub s (hub, err e) now = end_with (record s { hub = hub }) (failed (of_hub e))

module _ {B : Type 0} (backend : Backend B) (sha256 : Bytes → Bytes) (codec : Json ClipMeta)
    (aead : Aead) (aead_key : Bytes → Option Bytes) (secret group_id sender : Bytes) where
  unfoldable pub seal_clip : Protocol.Clip → ℕ → Bytes → Result SessionError Bytes
  seal_clip c counter nonce = do
    body ← map_err proto (encode_clip_body codec c)
    map_err of_group (seal aead aead_key secret group_id sender counter nonce body)

  -- Only what the node itself sends goes to the relay.
  unfoldable pub on_received : RelaySession B → Received → Bytes → Bool → RelaySession B
  on_received s (message out) nonce writes = elim out.skip [
    | none ↦
        let counter = (s.counter + 1) % 2 ^ 64 in
        record {
          session = send_sealed s.session writes (seal_clip out.clip counter nonce);
          counter = counter;
        }
    | some id ↦ s
  ]
  on_received s lagged nonce writes = s
  on_received s no_sender nonce writes = record s { session = end_with s.session closed }

  -- A clip that fails verification is dropped.
  unfoldable pub apply_opened : Session B → Opened → ℕ → Session B
  apply_opened s opened now = elim (decode_clip codec opened.plaintext) [
    | err e ↦ end_with s (failed (proto e))
    | ok c ↦ elim (verify_clip sha256 c) [
      | err e ↦ s
      | ok _ ↦ keep_hub s (apply_from backend sha256 s.hub c (hex_encode opened.sender) now) now
    ]
  ]

  unfoldable pub on_envelope : Session B → Bytes → ℕ → Session B
  on_envelope s env now = elim (open_envelope aead aead_key secret group_id env) [
    | err e ↦ end_with s (failed (of_group e))
    | ok opened ↦ apply_opened s opened now
  ]

  unfoldable pub on_frame : Session B → RelayType → Bytes → ℕ → Bool → Session B
  on_frame s payload body now writes = on_envelope s body now
  on_frame s ping body now writes = send s writes (write_frame [] pong body)
  on_frame s pong body now writes = s
  on_frame s join_ack body now writes = s
  on_frame s bye body now writes = end_with s closed
  on_frame s error body now writes = end_with s closed
  on_frame s join body now writes = s

  unfoldable pub on_poll : Session B → Poll (RelayType × Bytes) → ℕ → Bool → Session B
  on_poll s (waiting held) now writes = record s { held = held; socket = [] }
  on_poll s (ready frame rest) now writes =
      on_frame (record s { held = []; socket = rest }) frame.0 frame.1 now writes
  on_poll s (broken_off e) now writes =
      end_with (record s { held = []; socket = [] }) (failed (proto e))

  abbrev forget : RelaySession B → Session B
  forget s = record (s.session) { held = [] }

  -- One round of the loop. Every branch but the read drops the pending read.
  unfoldable pub round : RelaySession B → Event → ℕ → Bytes → Bool → RelaySession B
  round s (stop_changed stop) now nonce writes = record s {
    session = if stop then say_bye s.session writes else forget s;
  }
  round s tick now nonce writes = record s {
    session = send (forget s) writes (write_frame [] ping []);
  }
  round s (received r) now nonce writes =
      on_received (record s { session = forget s }) r nonce writes
  round s (arrived bytes) now nonce writes = record s {
    session =
        on_poll s.session (poll read_frame s.session.held (s.session.socket ++ bytes)) now writes;
  }
  round s hung_up now nonce writes = record s {
    session = end_with (forget s) (failed (proto (io early_eof)));
  }

  -- An ended session does nothing more.
  unfoldable pub step : RelaySession B → Event → ℕ → Bytes → Bool → RelaySession B
  step s e now nonce writes = if_running s.session.progress (round s e now nonce writes) s
