-- ===== src/Relay/Frames.antt =====
-- Frames of src/relay.rs, and frames of one protocol that reach the other.
use zsync.Base.{
  ltb, if◌then◌else◌, le→ltb, Bool-cases, Option-cases, some, length, take, drop, length-append,
  take-append, drop-append, Bytes, text_eq, ◌>>=◌, Result, nat_eq, ok, err, ℕ, zero, suc, ◌≤◌, ◌≡◌,
  refl, ap₂, inl, inr, true, [], ◌∷◌, ◌++◌, arith,
}
use zsync.Base.Words.{u32_be, from_be-u32_be}
use zsync.Protocol
use zsync.Protocol.{max_frame, ProtoError, bad_magic, too_large, FrameType, Json}
use zsync.Protocol.Frame
use zsync.Protocol.Frame.{read_exact, encode_frame, decode_frame}
use zsync.Protocol.Frame.Header.{read_exact_enough, encode_frame-framed, framed, small}
use zsync.Relay.{magic, version, RelayType, from_u8, to_u8, write_frame, write_json, read_frame}

from_u8-to_u8 : (t : RelayType) → from_u8 (to_u8 t) ≡ ok t
unfolding from_u8 to_u8
from_u8-to_u8 t = ground arith

abbrev pub relayed : RelayType → Bytes → Bytes
relayed t p = u32_be magic ++ version ∷ to_u8 t ∷ (u32_be (length p) ++ p)

write_frame-relayed :
    (sent : Bytes) (t : RelayType) (p e : Bytes)
    → write_frame sent t p ≡ ok e
    → (length p ≤ max_frame) × (e ≡ sent ++ relayed t p)
unfolding write_frame
write_frame-relayed sent t p e h = elim (Bool-cases (ltb max_frame (length p))) [
  | inl long ↦ absurd (failed long)
  | inr short ↦ (ground arith, ground (arith, small (length p) short))
]
  where
    failed : ltb max_frame (length p) ≡ true → ⊥
    failed long = ground arith

read_body :
    (t : RelayType) (n : ℕ) (body : Bytes)
    → n ≤ max_frame
    → n ≤ length body
    → read_frame (u32_be magic ++ version ∷ to_u8 t ∷ (u32_be n ++ body))
      ≡ ok ((t, take n body), drop n body)
unfolding read_frame magic
read_body t n body h k =
    rw
      (
        read_exact_enough 10 (u32_be magic ++ version ∷ to_u8 t ∷ (u32_be n ++ body)) (omega arith),
        from_u8-to_u8 t,
        from_be-u32_be n (omega arith),
        le→ltb max_frame n h,
        read_exact_enough n body k,
      )
      (the_rest n)
  where
    the_rest :
        (m : ℕ)
        → let whole : Result ProtoError (Bytes × Bytes) = ok (take m body, drop m body) in
          let nothing : Result ProtoError (Bytes × Bytes) = ok ([], body) in
          let both : Result ProtoError ((RelayType × Bytes) × Bytes) =
            ok ((t, take m body), drop m body) in
          ((if ltb 0 m then whole else nothing) >>= (λ x. ok ((t, x.0), x.1))) ≡ both
    the_rest zero = refl
    the_rest (suc m) = ground arith

-- A relay frame is read back from a stream, which then stands behind it.
pub read_frame-write_frame :
    (t : RelayType) (p e rest : Bytes)
    → write_frame [] t p ≡ ok e
    → read_frame (e ++ rest) ≡ ok ((t, p), rest)
read_frame-write_frame t p e rest h =
    let (fits, same) = write_frame-relayed [] t p e h in
    rw (same, read_body t (length p) (p ++ rest) fits (omega (arith, length-append p rest)))
      (ap₂ (λ q r. ok ((t, q), r)) (take-append p rest) (drop-append p rest))

pub read_frame-write_json :
    {A : Type 0} (codec : Json A) (t : RelayType) (v : A) (e rest : Bytes)
    → write_json codec t v ≡ ok e
    → (body : Bytes) × (codec.from_slice body ≡ some v)
      × (read_frame (e ++ rest) ≡ ok ((t, body), rest))
unfolding write_json
read_frame-write_json codec t v e rest h = elim (Option-cases (codec.to_vec v)) [
  | inl unwritten ↦ absurd (ground (arith, unwritten))
  | inr (body, w) ↦
      (body, codec.from_slice-to_vec v body w, read_frame-write_frame t body e rest (rw w at h))
]

-- A node that reads a frame of the relay from a stream, or decodes it, refuses it for its magic
-- number.
pub lan_refuses_relay :
    (t : RelayType) (p e rest : Bytes)
    → write_frame [] t p ≡ ok e
    → (Frame.read_frame (e ++ rest) ≡ err bad_magic) × (decode_frame (e ++ rest) ≡ err bad_magic)
unfolding magic Protocol.magic Frame.read_frame decode_frame
lan_refuses_relay t p e rest h =
    let (fits, same) = write_frame-relayed [] t p e h in
    rw same (rw (read_exact_enough 10 (relayed t p ++ rest) (omega arith)) refl, ground arith)

-- The relay, and a leaf that reads from it, refuse a frame of the LAN protocol for its magic number.
pub relay_refuses_lan :
    (t : FrameType) (p e rest : Bytes)
    → encode_frame t p ≡ ok e
    → read_frame (e ++ rest) ≡ err bad_magic
unfolding magic Protocol.magic read_frame
relay_refuses_lan t p e rest h =
    let (fits, same) = encode_frame-framed t p e h in
    rw same (rw (read_exact_enough 10 (framed t p ++ rest) (omega arith)) refl)
