-- ===== src/Protocol/Clips.antt =====
-- Clips of src/protocol.rs: the metadata as JSON, behind its length, and the content.
-- `codec` is what serde_json does for `ClipMeta`; `sha256` is the digest.
pub mod RoundTrip
pub mod Verify
use zsync.Base.{
  ltb, leb, eqb, if◌then◌else◌, ltb→lt, lt→ltb, le→ltb, leb→le, eqb_iff, Bool-cases, Option-cases,
  length, get_or, take, drop, replicate, is_empty, any, all, keep, All, length-append, length-drop,
  length-take, take-append, drop-append, take-append-drop, take-length, any-append, length-keep-le,
  Bytes, Text, codes, text_beq, text_beq_iff, text_eq, starts_with, utf8_width, text_len, ◌>>=◌,
  ◌>>◌, fail_if, or_fail, Result-cases, Result, Eq, ◌==◌, nat_eq, ok, err, ℕ, zero, suc, ◌+◌, ◌-◌,
  ◌*◌, ◌/◌, ◌%◌, ◌^◌, ◌≤◌, ◌<◌, min, max, ◌≡◌, refl, sym, ap, ap₂, ◌∙◌, subst, ◌≢◌, ◌↔◌, ◌⊎◌, inl,
  inr, Bool, true, false, not, ◌&&◌, ◌||◌, Option, none, some, List, [], ◌∷◌, ◌++◌, map,
  append_assoc, append-nil, arith,
}
use zsync.Base.Words.{u16_be, from_be}
use zsync.Protocol.{
  max_clip, max_meta, ProtoError, too_large, bad_meta, size_mismatch, hash_mismatch, json, clip,
  ClipMeta, Clip, Json, hash,
}
use zsync.Protocol.Frame.{encode_frame}

module _ (codec : Json ClipMeta) where
  unfoldable pub encode_clip_body : Clip → Result ProtoError Bytes
  encode_clip_body c = do
    fail_if (ltb max_clip (length c.content)) too_large
    let meta = record (c.meta) { size = length c.content }
    meta_bytes ← or_fail (codec.to_vec meta) json
    fail_if (ltb max_meta (length meta_bytes)) bad_meta
    ok (u16_be (length meta_bytes % 2 ^ 16) ++ (meta_bytes ++ c.content))

  unfoldable pub encode_clip : Clip → Result ProtoError Bytes
  encode_clip c = do body ← encode_clip_body c; encode_frame clip body

  unfoldable pub decode_clip : Bytes → Result ProtoError Clip
  decode_clip payload = do
    fail_if (ltb (length payload) 2) bad_meta
    let meta_len = from_be 0 (take 2 payload)
    fail_if (meta_len == 0 || ltb max_meta meta_len || ltb (length payload) (2 + meta_len)) bad_meta
    meta ← or_fail (codec.from_slice (take meta_len (drop 2 payload))) json
    let content = drop (2 + meta_len) payload
    fail_if (not (meta.size == length content)) (size_mismatch (length content) meta.size)
    fail_if (ltb max_clip (length content)) too_large
    ok (record { meta = meta; content = content })

unfoldable pub verify_clip : (Bytes → Bytes) → Clip → Result ProtoError (Unit {0})
verify_clip sha256 c = do
  fail_if (ltb max_clip (length c.content) || ltb max_clip c.meta.size) too_large
  fail_if (not (c.meta.size == length c.content)) (size_mismatch (length c.content) c.meta.size)
  fail_if (is_empty c.meta.hash || not (hash sha256 c.content == c.meta.hash)) hash_mismatch
  ok tt
