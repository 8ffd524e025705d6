-- ===== src/Protocol/Frame/Stream.antt =====
-- A session's frames, written by `write_frame` one after another and read back by `read_frame`.
use zsync.Base.{
  length, Bytes, text_eq, ◌>>=◌, Result-cases, Result, nat_eq, ok, err, ℕ, zero, suc, ◌≡◌, refl,
  ◌∙◌, inl, inr, List, [], ◌∷◌, ◌++◌, append_assoc, append-nil, arith,
}
use zsync.Protocol.{ProtoError, FrameType}
use zsync.Protocol.Frame.{encode_frame, read_frame, write_frame}
use zsync.Protocol.Frame.Header.{read_frame-encode_frame}

abbrev pub Frames : Type 0
Frames = List (FrameType × Bytes)

unfoldable pub write_frames : Bytes → Frames → Result ProtoError Bytes
write_frames sent [] = ok sent
write_frames sent ((t, p) ∷ fs) = do sent' ← write_frame sent t p; write_frames sent' fs

pub read_frames : ℕ → Bytes → Result ProtoError (Frames × Bytes)
read_frames zero stream = ok ([], stream)
read_frames (suc n) stream = do
  (f, rest) ← read_frame stream
  (fs, rest') ← read_frames n rest
  ok (f ∷ fs, rest')

Reads : Bytes → Frames → Bytes → Bytes → Type 0
Reads sent fs s rest =
    (tail : Bytes) × (s ≡ sent ++ tail) × (read_frames (length fs) (tail ++ rest) ≡ ok (fs, rest))

one_more :
    (sent e s : Bytes) (t : FrameType) (p : Bytes) (fs : Frames) (rest : Bytes)
    → encode_frame t p ≡ ok e
    → Reads (sent ++ e) fs s rest
    → Reads sent ((t, p) ∷ fs) s rest
unfolding Reads read_frames
one_more sent e s t p fs rest enc (tail, same, reads) = (
  e ++ tail,
  same ∙ append_assoc sent e tail,
  rw (append_assoc e tail rest, read_frame-encode_frame t p e (tail ++ rest) enc, reads),
)

written :
    (sent : Bytes) (fs : Frames) (s rest : Bytes)
    → write_frames sent fs ≡ ok s
    → Reads sent fs s rest
unfolding write_frames write_frame
written sent [] s rest h = unfold Reads read_frames in ([], ground (arith, append-nil sent), refl)
written sent ((t, p) ∷ fs) s rest h = elim (Result-cases (encode_frame t p)) [
  | inl (x, bad) ↦ absurd (failed x bad)
  | inr (e, enc) ↦ one_more sent e s t p fs rest enc (written (sent ++ e) fs s rest (rw enc at h))
]
  where
    failed : (x : ProtoError) → encode_frame t p ≡ err x → ⊥
    failed x bad = ground arith

-- Whatever frames a session writes, a reader of the stream gets the same frames in the same
-- order, and then stands at what was sent behind them.
pub read_frames-write_frames :
    (fs : Frames) (s rest : Bytes)
    → write_frames [] fs ≡ ok s
    → read_frames (length fs) (s ++ rest) ≡ ok (fs, rest)
unfolding Reads
read_frames-write_frames fs s rest h =
    let (tail, same, reads) = written [] fs s rest h in rw same reads
