-- ===== src/Protocol/Frame/Header.antt =====
-- The header of a frame, written by `encode_frame`, read by `decode_frame` and `read_frame`.
use zsync.Base.{
  ltb, if◌then◌else◌, ltb→lt, lt→ltb, le→ltb, Bool-cases, length, take, drop, length-append,
  length-take, take-append, drop-append, Bytes, text_eq, ◌>>=◌, Result, nat_eq, ok, err, ℕ, zero,
  suc, ◌-◌, ◌%◌, ◌^◌, ◌≤◌, ◌<◌, ◌≡◌, refl, sym, ap, ap₂, ◌∙◌, subst, inl, inr, false, [], ◌∷◌, ◌++◌,
  arith,
}
use zsync.Base.Words.{u32_be, from_be-u32_be}
use zsync.Protocol.{
  magic, version, max_frame, ProtoError, too_large, io, short_header, short_payload, early_eof,
  FrameType, to_u8, from_u8-to_u8,
}
use zsync.Protocol.Frame.{encode_frame, decode_frame, read_exact, read_frame}

-- The bytes of a frame with this payload.
abbrev pub framed : FrameType → Bytes → Bytes
framed t p = u32_be magic ++ version ∷ to_u8 t ∷ (u32_be (length p) ++ p)

pub small : (n : ℕ) → ltb max_frame n ≡ false → n % 2 ^ 32 ≡ n
small n h = ground arith

pub encode_frame_lem :
    (t : FrameType) (p : Bytes)
    → encode_frame t p ≡ (if ltb max_frame (length p) then err too_large else ok (framed t p))
unfolding encode_frame
encode_frame_lem t p = elim (Bool-cases (ltb max_frame (length p))) [
  | inl long ↦ rw long
  | inr short ↦ rw (short, small (length p) short)
]

pub encode_frame-framed :
    (t : FrameType) (p e : Bytes)
    → encode_frame t p ≡ ok e
    → (length p ≤ max_frame) × (e ≡ framed t p)
encode_frame-framed t p e h = ground (arith, encode_frame_lem t p)

pub decode_header :
    (t : FrameType) (n : ℕ) (body : Bytes)
    → n ≤ max_frame
    → n ≤ length body
    → decode_frame (u32_be magic ++ version ∷ to_u8 t ∷ (u32_be n ++ body)) ≡ ok (t, take n body)
unfolding decode_frame magic
decode_header t n body h k = rw (from_u8-to_u8 t, from_be-u32_be n (omega arith)) (ground arith)

decode_short :
    (t : FrameType) (n : ℕ) (body : Bytes)
    → n ≤ max_frame
    → length body < n
    → decode_frame (u32_be magic ++ version ∷ to_u8 t ∷ (u32_be n ++ body)) ≡ err (io short_payload)
unfolding decode_frame magic
decode_short t n body h k = rw (from_u8-to_u8 t, from_be-u32_be n (omega arith)) (ground arith)

pub read_exact_enough :
    (n : ℕ) (s : Bytes) → n ≤ length s → read_exact n s ≡ ok (take n s, drop n s)
unfolding read_exact
read_exact_enough n s h = rw (le→ltb (length s) n h)

pub read_exact_eof : (n : ℕ) (s : Bytes) → length s < n → read_exact n s ≡ err (io early_eof)
unfolding read_exact
read_exact_eof n s h = rw (lt→ltb (length s) n h)

pub read_header :
    (t : FrameType) (n : ℕ) (body : Bytes)
    → n ≤ max_frame
    → n ≤ length body
    → read_frame (u32_be magic ++ version ∷ to_u8 t ∷ (u32_be n ++ body))
      ≡ ok ((t, take n body), drop n body)
unfolding read_frame magic
read_header t n body h k =
    rw
      (
        read_exact_enough 10 (u32_be magic ++ version ∷ to_u8 t ∷ (u32_be n ++ body)) (omega arith),
        from_u8-to_u8 t,
        from_be-u32_be n (omega arith),
        le→ltb max_frame n h,
        read_exact_enough n body k,
      )
      (payload n)
  where
    payload :
        (m : ℕ)
        → let some_bytes : Result ProtoError (Bytes × Bytes) = ok (take m body, drop m body) in
          let no_bytes : Result ProtoError (Bytes × Bytes) = ok ([], body) in
          let all_bytes : Result ProtoError ((FrameType × Bytes) × Bytes) =
            ok ((t, take m body), drop m body) in
          ((if ltb 0 m then some_bytes else no_bytes) >>= (λ x. ok ((t, x.0), x.1))) ≡ all_bytes
    payload zero = refl
    payload (suc m) = ground arith

read_short :
    (t : FrameType) (n : ℕ) (body : Bytes)
    → n ≤ max_frame
    → length body < n
    → read_frame (u32_be magic ++ version ∷ to_u8 t ∷ (u32_be n ++ body)) ≡ err (io early_eof)
unfolding read_frame magic
read_short t n body h k = rw (
  read_exact_enough 10 (u32_be magic ++ version ∷ to_u8 t ∷ (u32_be n ++ body)) (omega arith),
  from_u8-to_u8 t,
  from_be-u32_be n (omega arith),
  le→ltb max_frame n h,
  read_exact_eof n body k,
  lt→ltb 0 n (omega arith),
)

framed-append :
    (t : FrameType) (p rest : Bytes)
    → framed t p ++ rest ≡ u32_be magic ++ version ∷ to_u8 t ∷ (u32_be (length p) ++ (p ++ rest))
framed-append t p rest = refl

-- A frame is read back from the front of a buffer.
pub decode_frame-encode_frame :
    (t : FrameType) (p e rest : Bytes)
    → encode_frame t p ≡ ok e
    → decode_frame (e ++ rest) ≡ ok (t, p)
decode_frame-encode_frame t p e rest h =
    let (fits, same) = encode_frame-framed t p e h in
    rw (same, decode_header t (length p) (p ++ rest) fits (omega (arith, length-append p rest)))
      (ap (λ q. ok (t, q)) (take-append p rest))

-- A frame is read back from a stream, and the stream stands behind it.
pub read_frame-encode_frame :
    (t : FrameType) (p e rest : Bytes)
    → encode_frame t p ≡ ok e
    → read_frame (e ++ rest) ≡ ok ((t, p), rest)
read_frame-encode_frame t p e rest h =
    let (fits, same) = encode_frame-framed t p e h in
    rw (same, read_header t (length p) (p ++ rest) fits (omega (arith, length-append p rest)))
      (ap₂ (λ q r. ok ((t, q), r)) (take-append p rest) (drop-append p rest))

decode_no_header : (s : Bytes) → length s < 10 → decode_frame s ≡ err (io short_header)
unfolding decode_frame
decode_no_header s h = rw (lt→ltb (length s) 10 h)

read_no_header : (s : Bytes) → length s < 10 → read_frame s ≡ err (io early_eof)
unfolding read_frame
read_no_header s h = rw (read_exact_eof 10 s h)

-- What a buffer that ends inside a frame gives.
abbrev Short : FrameType → Bytes → ℕ → Type 0
Short t p k =
    (decode_frame (take k (framed t p))
      ≡ err (io (if ltb k 10 then short_header else short_payload)))
    × (read_frame (take k (framed t p)) ≡ err (io early_eof))

cut_in_header : (t : FrameType) (p : Bytes) (k : ℕ) → k < 10 → Short t p k
cut_in_header t p k h =
    rw (lt→ltb k 10 h)
      (decode_no_header (take k (framed t p)) below, read_no_header (take k (framed t p)) below)
  where
    below : length (take k (framed t p)) < 10
    below = omega (arith, length-take k (framed t p))

cut_in_payload :
    (t : FrameType) (p : Bytes) (j : ℕ)
    → length p ≤ max_frame
    → j < length p
    → Short t p (suc (suc (suc (suc (suc (suc (suc (suc (suc (suc j))))))))))
cut_in_payload t p j fits h = (
  decode_short t (length p) (take j p) fits below ∙ ap (λ b. err (io b)) (ground arith),
  read_short t (length p) (take j p) fits below,
)
  where
    below : length (take j p) < length p
    below = omega (arith, length-take j p)

-- Every proper prefix of a frame is refused as short: by `decode_frame` with the message for the
-- part that is missing, and by `read_frame` as an early end of the stream.
pub decode_frame_truncated :
    (t : FrameType) (p e : Bytes) (k : ℕ)
    → encode_frame t p ≡ ok e
    → k < length e
    → (decode_frame (take k e) ≡ err (io (if ltb k 10 then short_header else short_payload)))
      × (read_frame (take k e) ≡ err (io early_eof))
decode_frame_truncated t p e k h cut =
    let (fits, same) = encode_frame-framed t p e h in
    subst
      (λ f.
        (decode_frame (take k f) ≡ err (io (if ltb k 10 then short_header else short_payload)))
        × (read_frame (take k f) ≡ err (io early_eof)))
      (sym same)
      (elim (Bool-cases (ltb k 10)) [
        | inl early ↦ cut_in_header t p k (ltb→lt k 10 early)
        | inr late ↦
            subst (Short t p) (sym (at_ten k late))
              (cut_in_payload t p (k - 10) fits (beyond (ap length same) late))
      ])
  where
    at_ten :
        (k : ℕ)
        → ltb k 10 ≡ false
        → k ≡ suc (suc (suc (suc (suc (suc (suc (suc (suc (suc (k - 10))))))))))
    at_ten k late = ground arith

    beyond :
        length e ≡ suc (suc (suc (suc (suc (suc (suc (suc (suc (suc (length p))))))))))
        → ltb k 10 ≡ false
        → k - 10 < length p
    beyond same late = ground (arith, cut)
