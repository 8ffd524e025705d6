-- ===== src/Daemon/Session.antt =====
-- `framed_loop` (daemon.rs): a session with a peer on the LAN, as a function of what happens next.
pub mod Chunks
pub mod Delivery
pub mod Names
mod Examples
use zsync.Base.{
  ltb, leb, eqb, if◌then◌else◌, ltb→lt, lt→ltb, le→ltb, leb→le, eqb_iff, Bool-cases, Option-cases,
  length, get_or, take, drop, replicate, is_empty, any, all, keep, All, length-append, length-drop,
  length-take, take-append, drop-append, take-append-drop, take-length, any-append, length-keep-le,
  Bytes, Text, codes, text_beq, text_beq_iff, text_eq, starts_with, utf8_width, text_len, ◌>>=◌,
  ◌>>◌, fail_if, or_fail, Result-cases, Result, Eq, ◌==◌, nat_eq, ok, err, ℕ, zero, suc, ◌+◌, ◌-◌,
  ◌*◌, ◌/◌, ◌%◌, ◌^◌, ◌≤◌, ◌<◌, min, max, ◌≡◌, refl, sym, ap, ap₂, ◌∙◌, subst, ◌≢◌, ◌↔◌, ◌⊎◌, inl,
  inr, Bool, true, false, not, ◌&&◌, ◌||◌, Option, none, some, List, [], ◌∷◌, ◌++◌, map,
  append_assoc, append-nil, arith,
}
use zsync.Protocol.{
  ProtoError, io, broken, FrameType, hello, hello_ack, ping, pong, clip, clip_ack, error, bye,
  Hello, ClipMeta, ClipAck, Json,
}
use zsync.Protocol
use zsync.Protocol.Frame.{encode_frame, encode_json, read_frame}
use zsync.Protocol.Clips.{encode_clip, decode_clip}
use zsync.Clipboard.{Backend}
use zsync.Hub.{Hub, HubError, Outbound, Outcome, apply_remote, apply_from, ack}
use zsync.Group.{GroupError}
use zsync.Protocol.Reading.{Poll, waiting, ready, broken_off, poll}

pub data SessionError : Type 0 where
  proto : ProtoError → SessionError
  of_hub : HubError → SessionError
  of_group : GroupError → SessionError

-- A session goes on, or has ended as its function returned.
pub data Progress : Type 0 where
  running closed : Progress
  failed : SessionError → Progress

abbrev pub if_running {ℓ} : {A : Type ℓ} → Progress → A → A → A
if_running running a b = a
if_running closed a b = b
if_running (failed e) a b = b

-- `held` is what the pending read has taken from the socket, `socket` what is still in it, and
-- `written` what was sent so far.
pub record Session (B : Type 0) : Type 0 where
  pub hub : Hub B
  pub held : Bytes
  pub socket : Bytes
  pub written : Bytes
  pub last_sync : Option ℕ
  pub progress : Progress

-- What the session takes from the channel of the hub.
pub data Received : Type 0 where
  message : Outbound → Received
  lagged no_sender : Received

-- The branches of the `select!`; of the last one, what happens to the socket.
pub data Event : Type 0 where
  stop_changed : Bool → Event
  tick : Event
  received : Received → Event
  arrived : Bytes → Event
  hung_up : Event

-- `out.skip.is_some() && out.skip == peer_id`.
abbrev pub skips : Option Text → Option Text → Bool
skips none peer_id = false
skips (some id) none = false
skips (some id) (some peer) = id == peer

module _ {B : Type 0} where
  abbrev pub end_with : Session B → Progress → Session B
  end_with s p = record s { progress = p }

  -- A write of these bytes, with `?`; `writes` says whether the transport takes it.
  unfoldable pub send : Session B → Bool → Result ProtoError Bytes → Session B
  send s writes (err e) = end_with s (failed (proto e))
  send s true (ok buf) = record s { written = s.written ++ buf }
  send s false (ok buf) = end_with s (failed (proto (io broken)))

  -- `let _ = write_frame(.., Type::Bye, ..)`, and the end.
  unfoldable pub say_bye : Session B → Bool → Session B
  say_bye s writes = end_with (record (send s writes (encode_frame bye [])) { held = [] }) closed

module _ {B : Type 0} (backend : Backend B) (sha256 : Bytes → Bytes) (codec : Json ClipMeta)
    (ack_codec : Json ClipAck) (hello_codec : Json Hello) (greeting : Hello)
    (peer_id : Option Text) where
  abbrev pub applied : Option Text → Hub B → Protocol.Clip → ℕ → Outcome B ClipAck
  applied none hub c now = apply_remote backend sha256 hub c now
  applied (some id) hub c now = apply_from backend sha256 hub c id now

  -- The acknowledgement is sent, and then the time of a positive one is kept.
  unfoldable pub acknowledge : Session B → Outcome B ClipAck → ℕ → Bool → Session B
  acknowledge s (hub, err e) now writes = end_with (record s { hub = hub }) (failed (of_hub e))
  acknowledge s (hub, ok a) now writes =
      let sent = send (record s { hub = hub }) writes (encode_json ack_codec clip_ack a) in
      if_running sent.progress (if a.ok_flag then record sent { last_sync = some now } else sent)
        sent

  unfoldable pub on_clip : Session B → Bytes → ℕ → Bool → Session B
  on_clip s payload now writes = elim (decode_clip codec payload) [
    | ok c ↦ acknowledge s (applied peer_id s.hub c now) now writes
    | err e ↦ send s writes (encode_json ack_codec clip_ack (ack [] false (codes "truncated")))
  ]

  unfoldable pub on_frame : Session B → FrameType → Bytes → ℕ → Bool → Session B
  on_frame s clip payload now writes = on_clip s payload now writes
  on_frame s ping payload now writes = send s writes (encode_frame pong payload)
  on_frame s pong payload now writes = s
  on_frame s clip_ack payload now writes = s
  on_frame s bye payload now writes = end_with s closed
  on_frame s error payload now writes = end_with s closed
  on_frame s hello payload now writes = send s writes (encode_json hello_codec hello_ack greeting)
  on_frame s hello_ack payload now writes = s

  unfoldable pub on_poll : Session B → Poll (FrameType × Bytes) → ℕ → Bool → Session B
  on_poll s (waiting held) now writes = record s { held = held; socket = [] }
  on_poll s (ready frame rest) now writes =
      on_frame (record s { held = []; socket = rest }) frame.0 frame.1 now writes
  on_poll s (broken_off e) now writes =
      end_with (record s { held = []; socket = [] }) (failed (proto e))

  unfoldable pub on_received : Session B → Received → Bool → Session B
  on_received s (message out) writes =
      if skips out.skip peer_id then s else send s writes (encode_clip codec out.clip)
  on_received s lagged writes = s
  on_received s no_sender writes = end_with s closed

  -- One round of the loop. Every branch but the read drops the pending read.
  unfoldable pub round : Session B → Event → ℕ → Bool → Session B
  round s (stop_changed stop) now writes = if stop then say_bye s writes else record s { held = [] }
  round s tick now writes = send (record s { held = [] }) writes (encode_frame ping [])
  round s (received r) now writes = on_received (record s { held = [] }) r writes
  round s (arrived bytes) now writes =
      on_poll s (poll read_frame s.held (s.socket ++ bytes)) now writes
  round s hung_up now writes =
      end_with (record s { held = [] }) (failed (proto (io Protocol.early_eof)))

  -- An ended session does nothing more.
  unfoldable pub step : Session B → Event → ℕ → Bool → Session B
  step s e now writes = if_running s.progress (round s e now writes) s
