-- ===== src/Protocol/Clips/RoundTrip.antt =====
-- `encode_clip`, and what `decode_clip` and `verify_clip` make of its bytes.
use zsync.Base.{
  if◌then◌else◌, le→ltb, Option-cases, length, is_empty, length-append, take-append, drop-append,
  Bytes, text_eq, Result-cases, nat_eq, ok, err, suc, ◌+◌, ◌≤◌, ◌<◌, ◌≡◌, refl, ap, ◌∙◌, inl, inr,
  false, none, some, ◌++◌, arith,
}
use zsync.Base.Words.{u16_be, from_be-u16_be}
use zsync.Protocol.{
  max_clip, max_meta, max_frame, ProtoError, clip, ClipMeta, Clip, Json, hash, too_large,
}
use zsync.Protocol.Frame.{decode_frame}
use zsync.Protocol.Frame.Header.{encode_frame_lem, framed, decode_frame-encode_frame}
use zsync.Protocol.Clips.{encode_clip_body, encode_clip, decode_clip, verify_clip}
use zsync.Protocol.Clips.Verify.{verify_clip_iff}

-- The clip that travels: the sender sets the size.
abbrev pub sized : Clip → Clip
sized c = record c { meta = record (c.meta) { size = length c.content } }

module _ (codec : Json ClipMeta) where
  record Encoded (c : Clip) (body : Bytes) : Type 0 where
    meta_bytes : Bytes
    written : codec.to_vec (sized c).meta ≡ some meta_bytes
    fits : length c.content ≤ max_clip
    meta_fits : length meta_bytes ≤ max_meta
    spelled : body ≡ u16_be (length meta_bytes) ++ (meta_bytes ++ c.content)

  encode-Encoded : (c : Clip) (body : Bytes) → encode_clip_body codec c ≡ ok body → Encoded c body
  unfolding encode_clip_body
  encode-Encoded c body h = elim (Option-cases (codec.to_vec (sized c).meta)) [
    | inl missing ↦ absurd (failed missing)
    | inr (b, e) ↦ record {
      meta_bytes = b;
      written = e;
      fits = ground (arith, e);
      meta_fits = ground (arith, e);
      spelled = spelled b e;
    }
  ]
    where
      failed : codec.to_vec (sized c).meta ≡ none → ⊥
      failed e = ground arith

      spelled :
          (b : Bytes)
          → codec.to_vec (sized c).meta ≡ some b
          → body ≡ u16_be (length b) ++ (b ++ c.content)
      spelled b e = ground arith

  decode_spelled :
      (meta : ClipMeta) (meta_bytes content : Bytes)
      → codec.from_slice meta_bytes ≡ some meta
      → 0 < length meta_bytes
      → length meta_bytes ≤ max_meta
      → meta.size ≡ length content
      → length content ≤ max_clip
      → decode_clip codec (u16_be (length meta_bytes) ++ (meta_bytes ++ content))
        ≡ ok (record { meta = meta; content = content })
  unfolding decode_clip
  decode_spelled meta meta_bytes content reads pos fits same small =
      rw
        (
          from_be-u16_be (length meta_bytes) (omega arith),
          take-append meta_bytes content,
          two_more,
          drop-append meta_bytes content,
          reads,
        )
        (ground (arith, length-append meta_bytes content))
    where
      two_more : 2 + length meta_bytes ≡ suc (suc (length meta_bytes))
      two_more = omega arith

  -- A clip is read back from its body, with the size that the sender set.
  pub decode_clip-encode_clip_body :
      (c : Clip) (body : Bytes)
      → encode_clip_body codec c ≡ ok body
      → decode_clip codec body ≡ ok (sized c)
  decode_clip-encode_clip_body c body h =
      let x = encode-Encoded c body h in
      rw (x.spelled) (
        decode_spelled (sized c).meta x.meta_bytes c.content (codec.from_slice-to_vec _ _ x.written)
          (codec.to_vec_nonempty _ _ x.written) x.meta_fits refl x.fits)

  body_fits : (c : Clip) (body : Bytes) → Encoded c body → length body ≤ max_frame
  body_fits c body x = omega (
    arith,
    ap length x.spelled,
    length-append (u16_be (length x.meta_bytes)) (x.meta_bytes ++ c.content),
    length-append x.meta_bytes c.content,
    x.fits,
    x.meta_fits,
  )

  -- A clip of at most 10 MiB whose metadata takes at most 16 KiB can always be sent: the body
  -- fits into a frame.
  pub encode_clip_total :
      (c : Clip) (meta_bytes : Bytes)
      → codec.to_vec (sized c).meta ≡ some meta_bytes
      → length meta_bytes ≤ max_meta
      → length c.content ≤ max_clip
      → (e : Bytes) × (encode_clip codec c ≡ ok e)
  unfolding encode_clip
  encode_clip_total c meta_bytes e fits small = (
    framed clip (body_of meta_bytes),
    rw encoded (
        encode_frame_lem clip (body_of meta_bytes)
        ∙ ap (λ b. if b then err too_large else ok (framed clip (body_of meta_bytes)))
            (le→ltb max_frame (length (body_of meta_bytes))
              (body_fits c _ (encode-Encoded c _ encoded)))),
  )
    where
      body_of : Bytes → Bytes
      body_of b = u16_be (length b) ++ (b ++ c.content)

      encoded : encode_clip_body codec c ≡ ok (body_of meta_bytes)
      encoded = unfold encode_clip_body in ground arith

  -- From one node to another, for a clip whose metadata has the hash of its content, which is not
  -- empty: the frame that carries the clip, whatever is sent behind it, is decoded to a clip that
  -- is verified, and it is the clip that was sent, with its size set.
  pub clip_arrives :
      (sha256 : Bytes → Bytes) (c : Clip) (e rest : Bytes)
      → encode_clip codec c ≡ ok e
      → c.meta.hash ≡ hash sha256 c.content
      → is_empty c.meta.hash ≡ false
      → (body : Bytes) × (decode_frame (e ++ rest) ≡ ok (clip, body))
        × (decode_clip codec body ≡ ok (sized c))
        × (verify_clip sha256 (sized c) ≡ ok tt)
  unfolding encode_clip
  clip_arrives sha256 c e rest h same given = elim (Result-cases (encode_clip_body codec c)) [
    | inl (x, bad) ↦ absurd (failed x bad)
    | inr (body, enc) ↦ (
      body,
      decode_frame-encode_frame clip body e rest (rw enc at h),
      decode_clip-encode_clip_body c body enc,
      (verify_clip_iff sha256 (sized c)).1 (record {
        fits = (encode-Encoded c body enc).fits;
        sized = refl;
        hashed = same;
        named = given;
      }),
    )
  ]
    where
      failed : (x : ProtoError) → encode_clip_body codec c ≡ err x → ⊥
      failed x bad = ground arith
