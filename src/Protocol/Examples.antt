-- ===== src/Protocol/Examples.antt =====
-- A clip on its way between two nodes. The digest of the examples is the length of what it is
-- applied to, and their codec puts the length of a text before it.
use zsync.Base.{
  length, take, drop, take-append, drop-append, Bytes, Text, codes, text_eq, nat_eq, ok, ◌%◌, ◌≤◌,
  ◌≡◌, refl, sym, ap, ◌∙◌, ◌↔◌, Option, none, some, [], ◌∷◌, ◌++◌, arith,
}
use zsync.Base.Words.{AreBytes, u16_be}
use zsync.Protocol.{
  magic, max_meta, ping, pong, clip, ClipMeta, Clip, Json, hash, hex_encode, to_u8,
}
use zsync.Protocol.Frame.{encode_frame, write_frame, decode_frame}
use zsync.Protocol.Frame.Header.{framed, decode_frame-encode_frame}
use zsync.Protocol.Frame.Accept.{Begins, decode_frame_iff}
use zsync.Protocol.Frame.Stream.{write_frames}
use zsync.Protocol.Clips.{encode_clip_body, encode_clip, decode_clip, verify_clip}
use zsync.Protocol.Clips.RoundTrip.{sized, clip_arrives}

abbrev pub digest : Bytes → Bytes
digest b = length b % 256 ∷ []

abbrev put : Text → Bytes → Bytes
put t rest = length t ∷ (t ++ rest)

abbrev pull : Bytes → Text × Bytes
pull [] = ([], [])
pull (n ∷ b) = (take n b, drop n b)

unfoldable pub write_meta : ClipMeta → Bytes
write_meta m = m.seq ∷ m.size ∷ put m.origin_id (put m.mime (put m.hash (put m.name [])))

pub read_meta : Bytes → Option ClipMeta
read_meta (seq ∷ size ∷ b) =
    let (origin_id, b1) = pull b in
    let (mime, b2) = pull b1 in
    let (h, b3) = pull b2 in
    some (record {
      origin_id = origin_id;
      seq = seq;
      mime = mime;
      hash = h;
      size = size;
      name = (pull b3).0;
    })
read_meta _ = none

pub read_meta-write_meta : (m : ClipMeta) → read_meta (write_meta m) ≡ some m
unfolding read_meta write_meta
read_meta-write_meta m =
    simp
      (
        take-append m.origin_id (put m.mime (put m.hash (put m.name []))),
        drop-append m.origin_id (put m.mime (put m.hash (put m.name []))),
        take-append m.mime (put m.hash (put m.name [])),
        drop-append m.mime (put m.hash (put m.name [])),
        take-append m.hash (put m.name []),
        drop-append m.hash (put m.name []),
        take-append m.name [],
      )
      refl

unfoldable pub codec : Json ClipMeta
unfolding write_meta
codec = record {
  to_vec = λ m. some (write_meta m);
  from_slice = read_meta;
  from_slice-to_vec = λ m b h. ap read_meta (sym (some_inj h)) ∙ read_meta-write_meta m;
  to_vec_nonempty = λ m b h. rw⁻¹ (some_inj h) (omega arith);
}
  where
    some_inj : {a b : Bytes} → some a ≡ some b → a ≡ b
    some_inj h = ap (λ o. elim o [ none ↦ [] | some x ↦ x ]) h

abbrev read_as : {A C : Type 0} → (C → A) → Option C → Option A
read_as f none = none
read_as f (some c) = some (f c)

-- The codec of a type whose values are spelled as those of another.
unfoldable pub via :
    {A C : Type 0} (base : Json C) (to : A → C) (from : C → A)
    → ((a : A) → from (to a) ≡ a)
    → Json A
via base to from same = record {
  to_vec = λ a. base.to_vec (to a);
  from_slice = λ b. read_as from (base.from_slice b);
  from_slice-to_vec =
      λ a b h. ap (read_as from) (base.from_slice-to_vec (to a) b h) ∙ ap some (same a);
  to_vec_nonempty = λ a b h. base.to_vec_nonempty (to a) b h;
}

abbrev pub greeting : Clip
greeting = record {
  meta = record {
    origin_id = codes "desk";
    seq = 7;
    mime = codes "text/plain";
    hash = codes "05";
    size = 5;
    name = [];
  };
  content = codes "hello";
}

abbrev ping_bytes : Bytes
ping_bytes = framed ping (codes "hi")

encode_ping : encode_frame ping (codes "hi") ≡ ok ping_bytes
unfolding encode_frame
encode_ping = refl

decode_frame-encode_frame_example :
    decode_frame (ping_bytes ++ (1 ∷ 2 ∷ [])) ≡ ok (ping, codes "hi")
decode_frame-encode_frame_example =
    decode_frame-encode_frame ping (codes "hi") ping_bytes (1 ∷ 2 ∷ []) encode_ping

ping_bytes-AreBytes : AreBytes ping_bytes
unfolding magic to_u8
ping_bytes-AreBytes = ground arith

decode_frame_iff_example :
    (decode_frame ping_bytes ≡ ok (ping, codes "hi")) ↔ Begins ping (codes "hi") ping_bytes
decode_frame_iff_example = decode_frame_iff ping_bytes ping (codes "hi") ping_bytes-AreBytes

written : write_frames [] ((ping, codes "hi") ∷ (pong, []) ∷ []) ≡ ok (ping_bytes ++ framed pong [])
unfolding write_frames write_frame encode_frame
written = refl

-- A clip that arrives with a byte missing.
abbrev torn : Clip
torn = record greeting { content = codes "hell" }

abbrev greeting_meta : Bytes
greeting_meta = write_meta greeting.meta

abbrev greeting_body : Bytes
greeting_body = u16_be (length greeting_meta) ++ (greeting_meta ++ codes "hello")

meta_written : codec.to_vec (sized greeting).meta ≡ some greeting_meta
unfolding codec
meta_written = refl

meta_fits : length greeting_meta ≤ max_meta
unfolding write_meta
meta_fits = omega arith

encode_greeting : encode_clip codec greeting ≡ ok (framed clip greeting_body)
unfolding encode_clip encode_frame encode_clip_body codec write_meta
encode_greeting = refl

greeting-hash : greeting.meta.hash ≡ hash digest greeting.content
unfolding hash hex_encode
greeting-hash = refl

clip_arrives_example :
    (body : Bytes) × (decode_frame (framed clip greeting_body ++ ping_bytes) ≡ ok (clip, body))
    × (decode_clip codec body ≡ ok (sized greeting))
    × (verify_clip digest (sized greeting) ≡ ok tt)
clip_arrives_example =
    clip_arrives codec digest greeting (framed clip greeting_body) ping_bytes encode_greeting
      greeting-hash refl
