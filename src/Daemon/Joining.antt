-- ===== src/Daemon/Joining.antt =====
-- The join of a relay session (`run_relay_session` of daemon.rs), from the end of the TLS handshake
-- to the loop. `socket` has the bytes that the server sends before it closes or waits.
pub mod Admission
mod Examples
use zsync.Base.{
  ltb, leb, eqb, if◌then◌else◌, ltb→lt, lt→ltb, le→ltb, leb→le, eqb_iff, Bool-cases, Option-cases,
  length, get_or, take, drop, replicate, is_empty, any, all, keep, All, length-append, length-drop,
  length-take, take-append, drop-append, take-append-drop, take-length, any-append, length-keep-le,
  Bytes, Text, codes, text_beq, text_beq_iff, text_eq, starts_with, utf8_width, text_len, ◌>>=◌,
  ◌>>◌, fail_if, or_fail, Result-cases, Result, Eq, ◌==◌, nat_eq, ok, err, ℕ, zero, suc, ◌+◌, ◌-◌,
  ◌*◌, ◌/◌, ◌%◌, ◌^◌, ◌≤◌, ◌<◌, min, max, ◌≡◌, refl, sym, ap, ap₂, ◌∙◌, subst, ◌≢◌, ◌↔◌, ◌⊎◌, inl,
  inr, Bool, true, false, not, ◌&&◌, ◌||◌, Option, none, some, List, [], ◌∷◌, ◌++◌, map,
  append_assoc, append-nil, arith,
}
use zsync.Base.Utf8.{from_utf8_lossy}
use zsync.Protocol.{ProtoError, io, broken, hex_encode, Json}
use zsync.Relay.{
  RelayType, join, join_ack, payload, ping, pong, error, bye, JoinAck, ErrorMsg, write_json,
  read_frame,
}
use zsync.Zsyncd.Leaf.{JoinMsg}

pub data JoinError : Type 0 where
  proto : ProtoError → JoinError
  bad_json : JoinError
  rejected : Text → JoinError
  refused : ErrorMsg → JoinError
  unexpected : RelayType → JoinError

unfoldable pub join_message : Bytes → Text → Text → Text → JoinMsg
join_message group_id node_id hostname version = record {
  group_id = hex_encode group_id;
  device_id = node_id;
  hostname = hostname;
  version = version;
}

module _ (codec : Json JoinMsg) (ack_codec : Json JoinAck) (error_codec : Json ErrorMsg) where
  -- The text of an error that does not parse is the message.
  unfoldable pub error_of : Bytes → ErrorMsg
  error_of body = elim (error_codec.from_slice body) [
    | none ↦ record { code = codes "error"; message = from_utf8_lossy body }
    | some e ↦ e
  ]

  -- The bytes behind a positive answer.
  unfoldable pub on_answer : RelayType → Bytes → Bytes → Result JoinError Bytes
  unfolding error_of
  on_answer join_ack body rest = elim (ack_codec.from_slice body) [
    | none ↦ err bad_json
    | some a ↦ if a.ok_flag then ok rest else err (rejected a.message)
  ]
  on_answer error body rest = err (refused (error_of body))
  on_answer join body rest = err (unexpected join)
  on_answer payload body rest = err (unexpected payload)
  on_answer ping body rest = err (unexpected ping)
  on_answer pong body rest = err (unexpected pong)
  on_answer bye body rest = err (unexpected bye)

  -- What was written, and how the join ended.
  unfoldable pub request_join : JoinMsg → Bytes → Bool → Bytes × Result JoinError Bytes
  unfolding on_answer
  request_join msg socket writes = elim (write_json codec join msg) [
    | err e ↦ ([], err (proto e))
    | ok b ↦ if not writes then ([], err (proto (io broken))) else (elim (read_frame socket) [
      | err e ↦ (b, err (proto e))
      | ok (frame, rest) ↦ (b, on_answer frame.0 frame.1 rest)
    ])
  ]
