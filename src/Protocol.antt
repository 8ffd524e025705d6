-- ===== src/Protocol.antt =====
-- src/protocol.rs: constants, errors, frame types, messages and hashes of the LAN protocol.
-- Its frames are in Frame, its clips in Clips, the sniffing of content types in Mime, and reads that
-- other events interrupt in Reading.
pub mod Frame
pub mod Clips
pub mod Mime
pub mod Reading
pub mod Examples
use zsync.Base.{
  ltb, leb, eqb, if◌then◌else◌, ltb→lt, lt→ltb, le→ltb, leb→le, eqb_iff, Bool-cases, Option-cases,
  length, get_or, take, drop, replicate, is_empty, any, all, keep, All, length-append, length-drop,
  length-take, take-append, drop-append, take-append-drop, take-length, any-append, length-keep-le,
  Bytes, Text, codes, text_beq, text_beq_iff, text_eq, starts_with, utf8_width, text_len, ◌>>=◌,
  ◌>>◌, fail_if, or_fail, Result, Eq, ◌==◌, nat_eq, ok, err, ℕ, zero, suc, ◌+◌, ◌-◌, ◌*◌, ◌/◌, ◌%◌,
  ◌^◌, ◌≤◌, ◌<◌, min, max, ◌≡◌, refl, sym, ap, ap₂, ◌∙◌, subst, ◌≢◌, ◌↔◌, ◌⊎◌, inl, inr, Bool, true,
  false, not, ◌&&◌, ◌||◌, Option, none, some, List, [], ◌∷◌, ◌++◌, map, append_assoc, append-nil,
  arith,
}

unfoldable pub magic : ℕ
magic = 0x5A53594E

abbrev pub version : ℕ
version = 1

abbrev pub max_clip : ℕ
max_clip = 10 * 1024 * 1024

abbrev pub max_frame : ℕ
max_frame = max_clip + 64 * 1024

abbrev pub max_meta : ℕ
max_meta = 16 * 1024

-- The two messages of `decode_frame`, the end of a stream, and any other failure of the transport.
pub data IoError : Type 0 where
  short_header short_payload early_eof broken : IoError

pub data ProtoError : Type 0 where
  bad_magic : ProtoError
  bad_version : ℕ → ProtoError
  too_large : ProtoError
  bad_meta : ProtoError
  size_mismatch : ℕ → ℕ → ProtoError
  hash_mismatch : ProtoError
  unknown_type : ℕ → ProtoError
  io : IoError → ProtoError
  json : ProtoError

-- The enum `Type` of the source.
pub data FrameType : Type 0 where
  hello hello_ack ping pong clip clip_ack error bye : FrameType

unfoldable pub from_u8 : ℕ → Result ProtoError FrameType
from_u8 v =
    if v == 1
    then ok hello
    else if v == 2
    then ok hello_ack
    else if v == 3
    then ok ping
    else if v == 4
    then ok pong
    else if v == 5
    then ok clip
    else if v == 6
    then ok clip_ack
    else if v == 7
    then ok error
    else if v == 8
    then ok bye
    else err (unknown_type v)

-- `typ as u8`.
unfoldable pub to_u8 : FrameType → ℕ
to_u8 hello = 1
to_u8 hello_ack = 2
to_u8 ping = 3
to_u8 pong = 4
to_u8 clip = 5
to_u8 clip_ack = 6
to_u8 error = 7
to_u8 bye = 8

pub record Hello : Type 0 where
  pub node_id : Text
  pub hostname : Text
  pub os : Text
  pub headless : Bool
  pub version : Text
  pub max_bytes : ℕ

pub record ClipMeta : Type 0 where
  pub origin_id : Text
  pub seq : ℕ
  pub mime : Text
  pub hash : Text
  pub size : ℕ
  pub name : Text

pub record Clip : Type 0 where
  pub meta : ClipMeta
  pub content : Bytes

pub record ClipAck : Type 0 where
  pub hash : Text
  pub ok_flag : Bool
  pub reason : Text

-- The digit of a nibble.
unfoldable pub hex_digit : ℕ → ℕ
hex_digit n = get_or (codes "0123456789abcdef") n 0

unfoldable pub hex_encode : Bytes → Text
unfolding hex_digit
hex_encode [] = []
hex_encode (b ∷ bs) = hex_digit (b / 16) ∷ hex_digit (b % 16) ∷ hex_encode bs

-- `sha256` is the digest of the sha2 crate.
unfoldable pub hash : (Bytes → Bytes) → Bytes → Text
hash sha256 bytes = hex_encode (sha256 bytes)

-- What serde_json gives for a type with derived `Serialize` and `Deserialize`: a value that was
-- written is read back, and its text is not empty.
pub record Json (A : Type 0) : Type 0 where
  pub to_vec : A → Option Bytes
  pub from_slice : Bytes → Option A
  pub from_slice-to_vec : (a : A) (b : Bytes) → to_vec a ≡ some b → from_slice b ≡ some a
  pub to_vec_nonempty : (a : A) (b : Bytes) → to_vec a ≡ some b → 0 < length b

pub from_u8-to_u8 : (t : FrameType) → from_u8 (to_u8 t) ≡ ok t
unfolding from_u8 to_u8
from_u8-to_u8 hello = refl
from_u8-to_u8 hello_ack = refl
from_u8-to_u8 ping = refl
from_u8-to_u8 pong = refl
from_u8-to_u8 clip = refl
from_u8-to_u8 clip_ack = refl
from_u8-to_u8 error = refl
from_u8-to_u8 bye = refl

pub to_u8-from_u8 : (v : ℕ) (t : FrameType) → from_u8 v ≡ ok t → to_u8 t ≡ v
unfolding from_u8 to_u8
to_u8-from_u8 v t h = ground arith

pub to_u8-lt : (t : FrameType) → to_u8 t < 256
unfolding to_u8
to_u8-lt t = ground arith

pub length-hex_encode : (bs : Bytes) → length (hex_encode bs) ≡ 2 * length bs
unfolding hex_encode
length-hex_encode [] = refl
length-hex_encode (b ∷ bs) = omega (arith, length-hex_encode bs)
