-- ===== src/Relay.antt =====
-- src/relay.rs: the frames between a leaf and the relay server, which differ from those of the
-- LAN protocol by their magic number and their types.
pub mod Frames
mod Examples
use zsync.Base.{
  ltb, leb, eqb, if◌then◌else◌, ltb→lt, lt→ltb, le→ltb, leb→le, eqb_iff, Bool-cases, Option-cases,
  length, get_or, take, drop, replicate, is_empty, any, all, keep, All, length-append, length-drop,
  length-take, take-append, drop-append, take-append-drop, take-length, any-append, length-keep-le,
  Bytes, Text, codes, text_beq, text_beq_iff, text_eq, starts_with, utf8_width, text_len, ◌>>=◌,
  ◌>>◌, fail_if, or_fail, Result-cases, Result, Eq, ◌==◌, nat_eq, ok, err, ℕ, zero, suc, ◌+◌, ◌-◌,
  ◌*◌, ◌/◌, ◌%◌, ◌^◌, ◌≤◌, ◌<◌, min, max, ◌≡◌, refl, sym, ap, ap₂, ◌∙◌, subst, ◌≢◌, ◌↔◌, ◌⊎◌, inl,
  inr, Bool, true, false, not, ◌&&◌, ◌||◌, Option, none, some, List, [], ◌∷◌, ◌++◌, map,
  append_assoc, append-nil, arith,
}
use zsync.Base.Words.{u32_be, from_be}
use zsync.Protocol.{
  max_frame, ProtoError, bad_magic, bad_version, too_large, unknown_type, json, Json,
}
use zsync.Protocol.Frame.{read_exact}

unfoldable pub magic : ℕ
magic = 0x5A535952

abbrev pub version : ℕ
version = 1

-- The enum `Type` of the source; `payload` is its `Data`.
pub data RelayType : Type 0 where
  join join_ack payload ping pong error bye : RelayType

unfoldable pub from_u8 : ℕ → Result ProtoError RelayType
from_u8 v =
    if v == 1
    then ok join
    else if v == 2
    then ok join_ack
    else if v == 3
    then ok payload
    else if v == 4
    then ok ping
    else if v == 5
    then ok pong
    else if v == 7
    then ok error
    else if v == 8
    then ok bye
    else err (unknown_type v)

-- `typ as u8`.
unfoldable pub to_u8 : RelayType → ℕ
to_u8 join = 1
to_u8 join_ack = 2
to_u8 payload = 3
to_u8 ping = 4
to_u8 pong = 5
to_u8 error = 7
to_u8 bye = 8

-- To a transport that does not fail: the bytes sent so far grow by the frame.
unfoldable pub write_frame : Bytes → RelayType → Bytes → Result ProtoError Bytes
write_frame sent typ body =
    if ltb max_frame (length body)
    then err too_large
    else ok
        (sent ++ (u32_be magic ++ version ∷ to_u8 typ ∷ (u32_be (length body % 2 ^ 32) ++ body)))

-- `write_json` on a transport that takes every write.
unfoldable pub write_json : {A : Type 0} → Json A → RelayType → A → Result ProtoError Bytes
write_json codec typ v = do b ← or_fail (codec.to_vec v) json; write_frame [] typ b

pub record JoinAck : Type 0 where
  pub ok_flag : Bool
  pub message : Text

pub record ErrorMsg : Type 0 where
  pub code : Text
  pub message : Text

unfoldable pub read_frame : Bytes → Result ProtoError ((RelayType × Bytes) × Bytes)
read_frame stream = do
  (hdr, rest) ← read_exact 10 stream
  fail_if (not (from_be 0 (take 4 hdr) == magic)) bad_magic
  fail_if (not (get_or hdr 4 0 == version)) (bad_version (get_or hdr 4 0))
  typ ← from_u8 (get_or hdr 5 0)
  let n = from_be 0 (take 4 (drop 6 hdr))
  fail_if (ltb max_frame n) too_large
  (body, rest') ← (if ltb 0 n then read_exact n rest else ok ([], rest))
  ok ((typ, body), rest')
