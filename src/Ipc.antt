-- ===== src/Ipc.antt =====
-- src/ipc.rs: a message between the command line and the daemon is a line of JSON, whose member
-- `n` is the number of the bytes that follow. A stream is the list of the bytes up to its end.
pub mod RoundTrip
mod Examples
use zsync.Base.{
  ltb, leb, eqb, if◌then◌else◌, ltb→lt, lt→ltb, le→ltb, leb→le, eqb_iff, Bool-cases, Option-cases,
  length, get_or, take, drop, replicate, is_empty, any, all, keep, All, length-append, length-drop,
  length-take, take-append, drop-append, take-append-drop, take-length, any-append, length-keep-le,
  Bytes, Text, codes, text_beq, text_beq_iff, text_eq, starts_with, utf8_width, text_len, ◌>>=◌,
  ◌>>◌, fail_if, or_fail, Result-cases, Result, Eq, ◌==◌, nat_eq, ok, err, ℕ, zero, suc, ◌+◌, ◌-◌,
  ◌*◌, ◌/◌, ◌%◌, ◌^◌, ◌≤◌, ◌<◌, min, max, ◌≡◌, refl, sym, ap, ap₂, ◌∙◌, subst, ◌≢◌, ◌↔◌, ◌⊎◌, inl,
  inr, Bool, true, false, not, ◌&&◌, ◌||◌, Option, none, some, List, [], ◌∷◌, ◌++◌, map,
  append_assoc, append-nil, arith,
}
use zsync.Protocol.{max_clip}

pub data IpcError : Type 0 where
  payload_too_large header_too_large closed early_eof bad_json unexpected_bytes : IpcError

-- What serde_json does with a header: its object, with the member `n` set, is written on one line,
-- and is read back with this member.
pub record Header (A : Type 0) : Type 0 where
  pub set_n : A → ℕ → A
  pub to_string : A → ℕ → Option Bytes
  pub from_slice : Bytes → Option (A × ℕ)
  pub from_slice-to_string :
      (a : A) (n : ℕ) (line : Bytes)
      → to_string a n ≡ some line
      → from_slice line ≡ some (set_n a n, n)
  pub one_line :
      (a : A) (n : ℕ) (line : Bytes)
      → to_string a n ≡ some line
      → any (λ b. b == b'\n') line ≡ false

-- To a transport that does not fail: the bytes sent so far grow by the message.
unfoldable pub write_msg : {A : Type 0} → Header A → Bytes → A → Bytes → Result IpcError Bytes
write_msg codec sent header body = do
  fail_if (ltb max_clip (length body)) payload_too_large
  line ← or_fail (codec.to_string header (length body)) bad_json
  ok (sent ++ (line ++ b'\n' ∷ body))

-- The loop over single bytes; `n` bytes of the line are there.
unfoldable pub read_line : ℕ → Bytes → Result IpcError (Bytes × Bytes)
read_line n [] = err closed
read_line n (b ∷ s) =
    let rest = read_line (n + 1) s in
    if b == b'\n'
    then ok ([], s)
    else if ltb (64 * 1024) (n + 1)
    then err header_too_large
    else (do (line, left) ← rest; ok (b ∷ line, left))

unfoldable pub read_line_json : {A : Type 0} → Header A → Bytes → Result IpcError ((A × ℕ) × Bytes)
unfolding read_line
read_line_json codec stream = do
  (line, rest) ← read_line 0 stream
  parsed ← or_fail (codec.from_slice line) bad_json
  ok (parsed, rest)

unfoldable pub read_exact_body : Bytes → ℕ → Result IpcError (Bytes × Bytes)
read_exact_body stream n = do
  fail_if (ltb max_clip n) payload_too_large
  fail_if (ltb (length stream) n) early_eof
  ok (take n stream, drop n stream)

-- `BufReader::read_line`, without the newline that `trim` takes off; a line may end with the
-- stream.
unfoldable pub buffered_line : Bytes → Bytes × Bytes
buffered_line [] = ([], [])
buffered_line (b ∷ s) =
    let rest = buffered_line s in if b == b'\n' then ([], s) else (b ∷ rest.0, rest.1)

-- `buffered` bytes behind the body are in the reader's buffer.
unfoldable pub read_response : {A : Type 0} → Header A → Bytes → ℕ → Result IpcError (A × Bytes)
unfolding buffered_line
read_response codec stream buffered = do
  fail_if (is_empty stream) closed
  let (line, rest) = buffered_line stream
  (parsed, n) ← or_fail (codec.from_slice line) bad_json
  (body, left) ← read_exact_body rest n
  fail_if (not (is_empty (take buffered left))) unexpected_bytes
  ok (parsed, body)
