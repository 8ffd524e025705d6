-- ===== src/Daemon/Session/Chunks.antt =====
-- Frames that arrive in several pieces.
use zsync.Base.{
  length, take, Bytes, Text, text_eq, nat_eq, ok, err, ℕ, ◌<◌, ◌≡◌, refl, sym, ap, ◌∙◌, subst, Bool,
  true, false, not, Option, [], ◌++◌, arith,
}
use zsync.Protocol.{io, early_eof, FrameType, Hello, ClipMeta, ClipAck, Json}
use zsync.Protocol.Frame.{encode_frame, read_frame}
use zsync.Protocol.Frame.Header.{decode_frame_truncated}
use zsync.Clipboard.{Backend}
use zsync.Protocol.Reading.{Poll, waiting, ready, broken_off, poll, poll_waits, poll_append}
use zsync.Daemon.Session.{
  Session, if_running, running, Event, stop_changed, tick, received, arrived, hung_up, on_poll,
  round, step,
}

-- The branches that drop the pending read while the session goes on reading.
abbrev pub interrupts : Event → Bool
interrupts (stop_changed stop) = not stop
interrupts (arrived bytes) = false
interrupts hung_up = false
interrupts _ = true

impossible : false ≡ true → ⊥
impossible h = ground arith

module _ {B : Type 0} (backend : Backend B) (sha256 : Bytes → Bytes) (codec : Json ClipMeta)
    (ack_codec : Json ClipAck) (hello_codec : Json Hello) (greeting : Hello)
    (peer_id : Option Text) where
  abbrev next : Session B → Event → ℕ → Bool → Session B
  next = step backend sha256 codec ack_codec hello_codec greeting peer_id

  step_running :
      (s : Session B) (e : Event) (now : ℕ) (writes : Bool)
      → s.progress ≡ running
      → next s e now writes
        ≡ round backend sha256 codec ack_codec hello_codec greeting peer_id s e now writes
  unfolding step
  step_running s e now writes h =
      ap
        (λ p.
          if_running p
            (round backend sha256 codec ack_codec hello_codec greeting peer_id s e now writes) s)
        h

  -- A piece that does not complete the frame is held.
  held_piece :
      (s : Session B) (a : Bytes) (now : ℕ) (writes : Bool)
      → s.progress ≡ running
      → read_frame (s.held ++ (s.socket ++ a)) ≡ err (io early_eof)
      → next s (arrived a) now writes ≡ record s { held = s.held ++ (s.socket ++ a); socket = [] }
  unfolding round on_poll
  held_piece s a now writes on short =
      step_running s (arrived a) now writes on
      ∙ ap (λ p. on_poll backend sha256 codec ack_codec hello_codec greeting peer_id s p now writes)
          (poll_waits read_frame s.held (s.socket ++ a) short)

  -- What the poll says is all that the state keeps of what was held.
  on_poll_forgets :
      (s : Session B) (h w : Bytes) (p : Poll (FrameType × Bytes)) (now : ℕ) (writes : Bool)
      → on_poll backend sha256 codec ack_codec hello_codec greeting peer_id
          (record s { held = h; socket = w })
          p
          now
          writes
        ≡ on_poll backend sha256 codec ack_codec hello_codec greeting peer_id s p now writes
  unfolding on_poll
  on_poll_forgets s h w (waiting held) now writes = refl
  on_poll_forgets s h w (ready frame rest) now writes = refl
  on_poll_forgets s h w (broken_off e) now writes = refl

  joined :
      (s : Session B) (a b : Bytes) (later : ℕ) (writes : Bool)
      → round backend sha256 codec ack_codec hello_codec greeting peer_id
          (record s { held = s.held ++ (s.socket ++ a); socket = [] })
          (arrived b)
          later
          writes
        ≡ round backend sha256 codec ack_codec hello_codec greeting peer_id s
            (arrived (a ++ b))
            later
            writes
  unfolding round
  joined s a b later writes =
      on_poll_forgets s (s.held ++ (s.socket ++ a)) []
        (poll read_frame (s.held ++ (s.socket ++ a)) b) later writes
      ∙ ap
          (λ p.
            on_poll backend sha256 codec ack_codec hello_codec greeting peer_id s p later writes)
          (poll_append read_frame s.held s.socket a b)

  -- A running session gets a piece that does not complete a frame, and then another piece. It is
  -- then in the state in which it would be if both had arrived as one.
  pub step-arrived_append :
      (s : Session B) (a b : Bytes) (now later : ℕ) (writes : Bool)
      → s.progress ≡ running
      → read_frame (s.held ++ (s.socket ++ a)) ≡ err (io early_eof)
      → step backend sha256 codec ack_codec hello_codec greeting peer_id
          (step backend sha256 codec ack_codec hello_codec greeting peer_id s
            (arrived a)
            now
            writes)
          (arrived b)
          later
          writes
        ≡ step backend sha256 codec ack_codec hello_codec greeting peer_id s
            (arrived (a ++ b))
            later
            writes
  step-arrived_append s a b now later writes on short =
      ap (λ t. next t (arrived b) later writes) (held_piece s a now writes on short)
      ∙ step_running (record s { held = s.held ++ (s.socket ++ a); socket = [] }) (arrived b) later
          writes on
      ∙ joined s a b later writes
      ∙ sym (step_running s (arrived (a ++ b)) later writes on)

  -- The branches of the `select!` other than the read drop what the read held.
  dropped :
      (s : Session B) (h : Bytes) (e : Event) (now : ℕ) (writes : Bool)
      → interrupts e ≡ true
      → round backend sha256 codec ack_codec hello_codec greeting peer_id
          (record s { held = h })
          e
          now
          writes
        ≡ round backend sha256 codec ack_codec hello_codec greeting peer_id s e now writes
  unfolding round
  dropped s h (arrived bytes) now writes b = absurd (impossible b)
  dropped s h hung_up now writes b = absurd (impossible b)
  dropped s h (stop_changed true) now writes b = absurd (impossible b)
  dropped s h (stop_changed false) now writes b = refl
  dropped s h tick now writes b = refl
  dropped s h (received r) now writes b = refl

  -- A running session that holds nothing gets a part of a frame, and then another branch of the
  -- `select!` completes before the rest arrives. The session is then in the state in which it would
  -- be if the part had never arrived.
  pub cut_frame_lost :
      (s : Session B) (t : FrameType) (p frame : Bytes) (k : ℕ) (e : Event) (now later : ℕ)
      (writes : Bool)
      → s.progress ≡ running
      → s.held ≡ []
      → s.socket ≡ []
      → encode_frame t p ≡ ok frame
      → k < length frame
      → interrupts e ≡ true
      → step backend sha256 codec ack_codec hello_codec greeting peer_id
          (step backend sha256 codec ack_codec hello_codec greeting peer_id s
            (arrived (take k frame))
            now
            writes)
          e
          later
          writes
        ≡ step backend sha256 codec ack_codec hello_codec greeting peer_id s e later writes
  cut_frame_lost s t p frame k e now later writes on h w enc cut drops =
      ap (λ x. next x e later writes) (held_piece s (take k frame) now writes on short)
      ∙ ap
          (λ x.
            next (record s { held = s.held ++ (s.socket ++ take k frame); socket = x }) e later
              writes)
          (sym w)
      ∙ step_running (record s { held = s.held ++ (s.socket ++ take k frame) }) e later writes on
      ∙ dropped s (s.held ++ (s.socket ++ take k frame)) e later writes drops
      ∙ sym (step_running s e later writes on)
    where
      short : read_frame (s.held ++ (s.socket ++ take k frame)) ≡ err (io early_eof)
      short =
          subst (λ x. read_frame (x ++ (s.socket ++ take k frame)) ≡ err (io early_eof)) (sym h)
            (subst (λ x. read_frame (x ++ take k frame) ≡ err (io early_eof)) (sym w)
              (decode_frame_truncated t p frame k enc cut).1)
