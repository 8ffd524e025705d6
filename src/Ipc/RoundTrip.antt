-- ===== src/Ipc/RoundTrip.antt =====
-- What was written is read.
use zsync.Base.{
  le→ltb, length, take, is_empty, any, length-append, take-append, drop-append, Bytes, text_eq,
  ◌==◌, nat_eq, ok, ℕ, zero, suc, ◌+◌, ◌*◌, ◌≤◌, ◌≡◌, refl, sym, ap, ◌∙◌, false, some, [], ◌∷◌,
  ◌++◌, append_assoc, append-nil, arith,
}
use zsync.Protocol.{max_clip}
use zsync.Ipc.{
  Header, write_msg, read_line, read_line_json, read_exact_body, buffered_line, read_response,
}

read_line_whole :
    (n : ℕ) (line rest : Bytes)
    → any (λ b. b == b'\n') line ≡ false
    → n + length line ≤ 64 * 1024
    → read_line n (line ++ b'\n' ∷ rest) ≡ ok (line, rest)
unfolding read_line
read_line_whole n [] rest h k = refl
read_line_whole n (b ∷ line) rest h k = ground (arith, read_line_whole (n + 1) line rest)

buffered_line_whole :
    (line rest : Bytes)
    → any (λ b. b == b'\n') line ≡ false
    → buffered_line (line ++ b'\n' ∷ rest) ≡ (line, rest)
unfolding buffered_line
buffered_line_whole [] rest h = refl
buffered_line_whole (b ∷ line) rest h = ground (arith, buffered_line_whole line rest)

body_read :
    (body rest : Bytes)
    → length body ≤ max_clip
    → read_exact_body (body ++ rest) (length body) ≡ ok (body, rest)
unfolding read_exact_body
body_read body rest h =
    rw (le→ltb max_clip (length body) h, take-append body rest, drop-append body rest)
      (ground (arith, length-append body rest))

not_empty : (line body : Bytes) → is_empty (line ++ b'\n' ∷ body) ≡ false
not_empty [] body = refl
not_empty (b ∷ line) body = refl

take_nothing : (k : ℕ) → let nothing : Bytes = [] in take k nothing ≡ []
take_nothing zero = refl
take_nothing (suc k) = refl

module _ {A : Type 0} (codec : Header A) where
  written :
      (header : A) (line body sent : Bytes)
      → write_msg codec [] header body ≡ ok sent
      → codec.to_string header (length body) ≡ some line
      → (length body ≤ max_clip) × (sent ≡ line ++ b'\n' ∷ body)
  unfolding write_msg
  written header line body sent h e = (ground (arith, e), ground (arith, e))

  -- A message whose line takes at most 64 KiB, whatever is sent behind it: the reader of the header
  -- gets the header with the length of the body, and stands before the body; the reader of that
  -- many bytes gets the body, and stands behind it.
  pub read_line_json-write_msg :
      (header : A) (line body sent rest : Bytes)
      → write_msg codec [] header body ≡ ok sent
      → codec.to_string header (length body) ≡ some line
      → length line ≤ 64 * 1024
      → (read_line_json codec (sent ++ rest)
          ≡ ok ((codec.set_n header (length body), length body), body ++ rest))
        × (read_exact_body (body ++ rest) (length body) ≡ ok (body, rest))
  unfolding read_line_json
  read_line_json-write_msg header line body sent rest h e k =
      let (small, spelled) = written header line body sent h e in
      (
        rw
            (
              spelled,
              append_assoc line (b'\n' ∷ body) rest,
              read_line_whole 0 line (body ++ rest) (codec.one_line header (length body) line e)
                  (omega arith),
              codec.from_slice-to_string header (length body) line e,
            )
            refl,
        body_read body rest small,
      )

  -- A message that is all that was sent is what `read_response` reads, whatever its buffer takes.
  pub read_response-write_msg :
      (header : A) (line body sent : Bytes) (buffered : ℕ)
      → write_msg codec [] header body ≡ ok sent
      → codec.to_string header (length body) ≡ some line
      → read_response codec sent buffered ≡ ok (codec.set_n header (length body), body)
  unfolding read_response
  read_response-write_msg header line body sent buffered h e =
      let (small, spelled) = written header line body sent h e in
      let whole : read_exact_body body (length body) ≡ ok (body, []) =
        ap (λ s. read_exact_body s (length body)) (sym (append-nil body))
        ∙ body_read body [] small in
      rw
        (
          spelled,
          not_empty line body,
          buffered_line_whole line body (codec.one_line header (length body) line e),
          codec.from_slice-to_string header (length body) line e,
          whole,
        )
        (rw (take_nothing buffered) refl)
