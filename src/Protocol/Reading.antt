-- ===== src/Protocol/Reading.antt =====
-- One `read_frame` among the branches of a `select!`. The future of the read holds the bytes that
-- it has taken from the socket. It is dropped with them when another branch completes first, and
-- the next round starts a new one.
use zsync.Base.{
  if◌then◌else◌, all, Bytes, text_eq, Result, nat_eq, ok, err, ◌≡◌, ap, ◌∙◌, Bool, true, false,
  ◌++◌, append_assoc,
}
use zsync.Protocol.{ProtoError, io, early_eof}

-- What a poll of the read gives: it waits with what it holds, or a frame and the bytes that the
-- socket has beyond it, or an error.
pub data Poll (T : Type 0) : Type 0 where
  waiting : Bytes → Poll T
  ready : T → Bytes → Poll T
  broken_off : ProtoError → Poll T

-- A read that runs out of bytes waits for more.
abbrev pub is_eof : ProtoError → Bool
is_eof (io early_eof) = true
is_eof _ = false

-- What the read does with `all`, the bytes so far.
abbrev pub poll_result : {T : Type 0} → Result ProtoError (T × Bytes) → Bytes → Poll T
poll_result (ok got) all = ready got.0 got.1
poll_result (err e) all = if is_eof e then waiting all else broken_off e

-- `read` is `read_frame` of a protocol, on a stream that ends behind the given bytes.
unfoldable pub poll :
    {T : Type 0} → (Bytes → Result ProtoError (T × Bytes)) → Bytes → Bytes → Poll T
poll read held socket = poll_result (read (held ++ socket)) (held ++ socket)

pub poll_waits :
    {T : Type 0} (read : Bytes → Result ProtoError (T × Bytes)) (held socket : Bytes)
    → read (held ++ socket) ≡ err (io early_eof)
    → poll read held socket ≡ waiting (held ++ socket)
unfolding poll
poll_waits read held socket h = ap (λ r. poll_result r (held ++ socket)) h

pub poll_ready :
    {T : Type 0} (read : Bytes → Result ProtoError (T × Bytes)) (held socket : Bytes)
    (got : T × Bytes)
    → read (held ++ socket) ≡ ok got
    → poll read held socket ≡ ready got.0 got.1
unfolding poll
poll_ready read held socket got h = ap (λ r. poll_result r (held ++ socket)) h

-- What arrives in two pieces is polled like one.
pub poll_append :
    {T : Type 0} (read : Bytes → Result ProtoError (T × Bytes)) (held socket a b : Bytes)
    → poll read (held ++ (socket ++ a)) b ≡ poll read held (socket ++ (a ++ b))
unfolding poll
poll_append read held socket a b =
    ap (λ all. poll_result (read all) all)
      (append_assoc held (socket ++ a) b ∙ ap (λ x. held ++ x) (append_assoc socket a b))
