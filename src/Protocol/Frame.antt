-- ===== src/Protocol/Frame.antt =====
-- Frames of src/protocol.rs: a header of ten bytes and the payload.
-- A stream is the list of the bytes that are still to come before its end.
pub mod Header
pub mod Accept
pub mod Stream
use zsync.Base.{
  ltb, leb, eqb, if◌then◌else◌, ltb→lt, lt→ltb, le→ltb, leb→le, eqb_iff, Bool-cases, Option-cases,
  length, get_or, take, drop, replicate, is_empty, any, all, keep, All, length-append, length-drop,
  length-take, take-append, drop-append, take-append-drop, take-length, any-append, length-keep-le,
  Bytes, Text, codes, text_beq, text_beq_iff, text_eq, starts_with, utf8_width, text_len, ◌>>=◌,
  ◌>>◌, fail_if, or_fail, Result-cases, Result, Eq, ◌==◌, nat_eq, ok, err, ℕ, zero, suc, ◌+◌, ◌-◌,
  ◌*◌, ◌/◌, ◌%◌, ◌^◌, ◌≤◌, ◌<◌, min, max, ◌≡◌, refl, sym, ap, ap₂, ◌∙◌, subst, ◌≢◌, ◌↔◌, ◌⊎◌, inl,
  inr, Bool, true, false, not, ◌&&◌, ◌||◌, Option, none, some, List, [], ◌∷◌, ◌++◌, map,
  append_assoc, append-nil, arith,
}
use zsync.Base.Words.{u32_be, from_be}
use zsync.Protocol.{
  Json, json, magic, version, max_frame, ProtoError, bad_magic, bad_version, too_large, io,
  short_header, short_payload, early_eof, FrameType, from_u8, to_u8,
}

-- `payload.len() as u32` wraps; the test above it keeps it exact.
unfoldable pub encode_frame : FrameType → Bytes → Result ProtoError Bytes
encode_frame typ payload =
    if ltb max_frame (length payload)
    then err too_large
    else ok (u32_be magic ++ version ∷ to_u8 typ ∷ (u32_be (length payload % 2 ^ 32) ++ payload))

unfoldable pub decode_frame : Bytes → Result ProtoError (FrameType × Bytes)
decode_frame buf = do
  fail_if (ltb (length buf) 10) (io short_header)
  fail_if (not (from_be 0 (take 4 buf) == magic)) bad_magic
  fail_if (not (get_or buf 4 0 == version)) (bad_version (get_or buf 4 0))
  typ ← from_u8 (get_or buf 5 0)
  let n = from_be 0 (take 4 (drop 6 buf))
  fail_if (ltb max_frame n) too_large
  fail_if (ltb (length buf) (10 + n)) (io short_payload)
  ok (typ, take n (drop 10 buf))

-- `read_exact`: the next `n` bytes, and the rest of the stream.
unfoldable pub read_exact : ℕ → Bytes → Result ProtoError (Bytes × Bytes)
read_exact n stream =
    if ltb (length stream) n then err (io early_eof) else ok (take n stream, drop n stream)

unfoldable pub read_frame : Bytes → Result ProtoError ((FrameType × Bytes) × Bytes)
read_frame stream = do
  (hdr, rest) ← read_exact 10 stream
  fail_if (not (from_be 0 (take 4 hdr) == magic)) bad_magic
  fail_if (not (get_or hdr 4 0 == version)) (bad_version (get_or hdr 4 0))
  typ ← from_u8 (get_or hdr 5 0)
  let n = from_be 0 (take 4 (drop 6 hdr))
  fail_if (ltb max_frame n) too_large
  (payload, rest') ← (if ltb 0 n then read_exact n rest else ok ([], rest))
  ok ((typ, payload), rest')

-- `write_frame` to a transport that does not fail: the bytes sent so far grow by the frame.
unfoldable pub write_frame : Bytes → FrameType → Bytes → Result ProtoError Bytes
write_frame sent typ payload = do buf ← encode_frame typ payload; ok (sent ++ buf)

-- `encode_json`, which `write_json` sends; a value that serde_json refuses is an error.
unfoldable pub encode_json : {A : Type 0} → Json A → FrameType → A → Result ProtoError Bytes
encode_json codec typ v = do b ← or_fail (codec.to_vec v) json; encode_frame typ b
