-- ===== src/Protocol/Frame/Accept.antt =====
-- The buffers that `decode_frame` accepts.
use zsync.Base.{
  ltb, if◌then◌else◌, le→ltb, length, take, drop, length-take, take-append-drop, Bytes, text_eq,
  ◌>>=◌, ◌>>◌, fail_if, Result, ◌==◌, nat_eq, ok, err, ℕ, ◌+◌, ◌≤◌, ◌<◌, ◌≡◌, sym, ap, ap₂, ◌∙◌,
  subst, ◌↔◌, false, not, [], ◌∷◌, ◌++◌, arith,
}
use zsync.Base.Words.{u32_be, from_be, AreBytes}
use zsync.Protocol.{
  magic, version, max_frame, ProtoError, FrameType, bad_magic, bad_version, too_large, io,
  short_header, short_payload, from_u8, to_u8, to_u8-from_u8,
}
use zsync.Protocol.Frame.{encode_frame, decode_frame}
use zsync.Protocol.Frame.Header.{framed, encode_frame_lem, decode_frame-encode_frame}

-- The buffer is a frame of this type and payload, and what follows it.
abbrev pub Begins : FrameType → Bytes → Bytes → Type 0
Begins t p buf = (e : Bytes) × (rest : Bytes) × (encode_frame t p ≡ ok e) × (buf ≡ e ++ rest)

u32_be-from_be :
    (a b c d : ℕ)
    → a < 256
    → b < 256
    → c < 256
    → d < 256
    → u32_be (from_be 0 (a ∷ b ∷ c ∷ d ∷ [])) ≡ a ∷ b ∷ c ∷ d ∷ []
u32_be-from_be a b c d ha hb hc hd =
    ap₂ (λ x y. x ∷ y) (omega arith)
      (ap₂ (λ x y. x ∷ y) (omega arith)
        (ap₂ (λ x y. x ∷ y) (omega arith) (ap (λ x. x ∷ []) (omega arith))))

record Fields (t : FrameType) (p : Bytes) (m n v ty : ℕ) (rest : Bytes) : Type 0 where
  magic_ok : m ≡ magic
  version_ok : v ≡ version
  type_ok : from_u8 ty ≡ ok t
  fits : n ≤ max_frame
  whole : n ≤ length rest
  payload : p ≡ take n rest

module _ (a b c d v ty e f g h : ℕ) (rest : Bytes) (t : FrameType) (p : Bytes) where
  abbrev whole_buffer : Bytes
  whole_buffer = a ∷ b ∷ c ∷ d ∷ v ∷ ty ∷ e ∷ f ∷ g ∷ h ∷ rest

  abbrev size_field : ℕ
  size_field = from_be 0 (e ∷ f ∷ g ∷ h ∷ [])

  checks : ℕ → ℕ → Result ProtoError (FrameType × Bytes)
  checks m n = do
    fail_if (ltb (length whole_buffer) 10) (io short_header)
    fail_if (not (m == magic)) bad_magic
    fail_if (not (v == version)) (bad_version v)
    typ ← from_u8 ty
    fail_if (ltb max_frame n) too_large
    fail_if (ltb (length whole_buffer) (10 + n)) (io short_payload)
    ok (typ, take n rest)

  checks-Fields : (m n : ℕ) → checks m n ≡ ok (t, p) → Fields t p m n v ty rest
  unfolding checks
  checks-Fields m n k = ground arith

  decode_frame-Fields :
      decode_frame whole_buffer ≡ ok (t, p)
      → Fields t p (from_be 0 (a ∷ b ∷ c ∷ d ∷ [])) size_field v ty rest
  unfolding decode_frame checks
  decode_frame-Fields k = checks-Fields (from_be 0 (a ∷ b ∷ c ∷ d ∷ [])) size_field k

  decode_frame-Begins :
      AreBytes whole_buffer → decode_frame whole_buffer ≡ ok (t, p) → Begins t p whole_buffer
  decode_frame-Begins (ha, (hb, (hc, (hd, (hv, (hty, (he, (hf, (hg, (hh, hr)))))))))) k = (
    framed t p,
    drop size_field rest,
    encode_frame_lem t p ∙ ap (λ b. if b then err too_large else ok (framed t p)) fits,
    λ i. first i ++ x.version_ok i ∷ kind i ∷ (size i ++ tail i),
  )
    where
      x : Fields t p (from_be 0 (a ∷ b ∷ c ∷ d ∷ [])) size_field v ty rest
      x = decode_frame-Fields k

      same_length : size_field ≡ length p
      same_length = omega (arith, x.whole, length-take size_field rest, ap length x.payload)

      fits : ltb max_frame (length p) ≡ false
      fits = le→ltb max_frame (length p) (subst (λ n. n ≤ max_frame) same_length x.fits)

      first : a ∷ b ∷ c ∷ d ∷ [] ≡ u32_be magic
      first = sym (u32_be-from_be a b c d ha hb hc hd) ∙ ap u32_be x.magic_ok

      kind : ty ≡ to_u8 t
      kind = sym (to_u8-from_u8 ty t x.type_ok)

      size : e ∷ f ∷ g ∷ h ∷ [] ≡ u32_be (length p)
      size = sym (u32_be-from_be e f g h he hf hg hh) ∙ ap u32_be same_length

      tail : rest ≡ p ++ drop size_field rest
      tail =
          sym (take-append-drop size_field rest)
          ∙ ap (λ q. q ++ drop size_field rest) (sym x.payload)

short_buffer : (s : Bytes) (t : FrameType) (p : Bytes) → decode_frame s ≡ ok (t, p) → 10 ≤ length s
unfolding decode_frame
short_buffer s t p h = ground arith

decode_frame_sound :
    (buf : Bytes) (t : FrameType) (p : Bytes)
    → AreBytes buf
    → decode_frame buf ≡ ok (t, p)
    → Begins t p buf
decode_frame_sound (a ∷ b ∷ c ∷ d ∷ v ∷ ty ∷ e ∷ f ∷ g ∷ h ∷ rest) t p bytes k =
    decode_frame-Begins a b c d v ty e f g h rest t p bytes k
decode_frame_sound buf t p bytes k = absurd (omega (arith, short_buffer _ t p k))

-- A buffer of bytes is decoded to a frame exactly when it begins with the encoding of that frame.
pub decode_frame_iff :
    (buf : Bytes) (t : FrameType) (p : Bytes)
    → AreBytes buf
    → (decode_frame buf ≡ ok (t, p)) ↔ Begins t p buf
decode_frame_iff buf t p bytes = (
  decode_frame_sound buf t p bytes,
  λ (e, rest, enc, same). rw same (decode_frame-encode_frame t p e rest enc),
)
