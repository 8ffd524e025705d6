-- ===== src/Zsyncd/Leaf/Forwarding.antt =====
-- What the loop of a session does with the envelopes of its device, and with those of others.
use zsync.Base.{
  eqb_iff, ltb, ◌<◌, if◌then◌else◌, Bool-cases, any, Bytes, Text, text_beq_iff, text_eq, Result,
  ◌==◌, nat_eq, ok, err, ℕ, ◌≡◌, refl, sym, ap, ap₂, ◌∙◌, inl, inr, Bool, true, false, not, ◌&&◌,
  some, List, [], ◌∷◌, ◌++◌, append-nil, arith,
}
use zsync.Protocol.{ProtoError}
use zsync.Protocol.Reading.{ready, poll, poll_ready}
use zsync.Relay.{payload, error, write_frame, read_frame}
use zsync.Relay.Frames.{read_frame-write_frame}
use zsync.Zsyncd.Groups.{Disk, get, is_enabled}
use zsync.Zsyncd.Rooms.{Member, room, queue_max, is_device, leave, broadcast}
use zsync.Zsyncd.Rooms.Sessions.{others, room-leave}
use zsync.Zsyncd.Rooms.Delivery.{offers, broadcast-room}
use zsync.Zsyncd.Leaf.{Server}
use zsync.Zsyncd.Leaf.Serving.{
  Closed, Stage, finished, ends, going, while_going, LeafSession, LeafEvent, queued, arrived,
  Served, put, still_enabled, on_envelope, on_frame, on_poll, round, close, serve,
}

-- The frame of an envelope is what the read of a session that holds nothing gives.
polled :
    (s : LeafSession) (env frame : Bytes)
    → s.held ≡ []
    → s.socket ≡ []
    → write_frame [] payload env ≡ ok frame
    → poll read_frame s.held (s.socket ++ frame) ≡ ready (payload, env) []
polled s env frame h w framed =
    poll_ready read_frame s.held (s.socket ++ frame) ((payload, env), [])
      (ap₂ (λ x y. read_frame (x ++ (y ++ frame))) h w
        ∙ ap read_frame (sym (append-nil frame))
        ∙ read_frame-write_frame payload env frame [] framed)

put-names :
    (s : LeafSession) (writes : Bool) (b : Result ProtoError Bytes)
    → ((put s writes b).gid ≡ s.gid) × ((put s writes b).device ≡ s.device)
unfolding put
put-names s writes (err e) = (refl, refl)
put-names s true (ok b) = (refl, refl)
put-names s false (ok b) = (refl, refl)

same_queue : (queue_len : ℕ → ℕ) (a b : ℕ) → (a == b) ≡ true → queue_len a ≡ queue_len b
same_queue queue_len a b h = ap queue_len ((eqb_iff a b).0 h)

-- A broadcast puts the payload into a queue that has room, of a member who is not the sender's
-- device.
offered :
    (queue_len : ℕ → ℕ) (from : Text) (env : Bytes) (tx : ℕ) (ms : List Member)
    → queue_len tx < queue_max
    → any (λ m. m.tx == tx && not (is_device from m)) ms ≡ true
    → any (λ o. o.0 == tx && o.1 == env) (offers queue_len from env ms) ≡ true
offered queue_len from env tx [] has_room h = h
offered queue_len from env tx (m ∷ ms) has_room h = elim (Bool-cases (is_device from m)) [
  | inl y ↦ rw y (offered queue_len from env tx ms has_room (ground (arith, y)))
  | inr n ↦ rw n (elim (Bool-cases (ltb (queue_len m.tx) queue_max)) [
    | inl room_there ↦
        rw room_there
          (ground (arith, offered queue_len from env tx ms has_room, text_beq_iff env env))
    | inr full ↦ rw full (
        ground
          (arith, full, offered queue_len from env tx ms has_room, same_queue queue_len m.tx tx))
  ])
]

while-session : (g : Stage) (a b : Closed) → a.1 ≡ b.1 → (while_going g a b).1 ≡ b.1
while-session going a b h = h
while-session Stage.finished a b h = refl
while-session (Stage.broke e) a b h = refl

-- The session in its loop, once it has read the frame.
abbrev read_on : LeafSession → LeafSession
read_on s = record s { held = []; socket = [] }

put-written :
    (s : LeafSession) (writes : Bool) (b : Bytes)
    → (put s writes (ok b)).written ≡ (if writes then s.written ++ b else s.written)
unfolding put
put-written s true b = refl
put-written s false b = refl

abbrev looked_up : Server → Disk → Text → Server
looked_up srv disk gid = (still_enabled srv disk gid).0

module _ (disabled : Bytes) (queue_len : ℕ → ℕ) where
  pub served :
      (srv : Server) (disk : Disk) (s : LeafSession) (e : LeafEvent) (writes : Bool)
      → s.stage ≡ going
      → serve disabled queue_len srv disk s e writes
        ≡ close disabled queue_len (round disabled queue_len srv disk s e writes)
  unfolding serve
  served srv disk s e writes on =
      ap
        (λ g.
          while_going g (close disabled queue_len (round disabled queue_len srv disk s e writes))
            (srv, s, [], []))
        on

  -- What becomes of an envelope that the session has read.
  abbrev handled : Server → Disk → LeafSession → Bytes → Bool → Closed
  handled srv disk s env writes =
      close disabled queue_len
        (on_poll disabled queue_len srv disk s (ready (payload, env) []) writes)

  arrived_envelope :
      (srv : Server) (disk : Disk) (s : LeafSession) (env frame : Bytes) (writes : Bool)
      → s.stage ≡ going
      → s.held ≡ []
      → s.socket ≡ []
      → write_frame [] payload env ≡ ok frame
      → serve disabled queue_len srv disk s (arrived frame) writes ≡ handled srv disk s env writes
  unfolding round
  arrived_envelope srv disk s env frame writes on h w framed =
      served srv disk s (arrived frame) writes on
      ∙ ap (λ p. close disabled queue_len (on_poll disabled queue_len srv disk s p writes))
          (polled s env frame h w framed)

  admitted_envelope :
      (srv : Server) (disk : Disk) (s : LeafSession) (env : Bytes) (writes : Bool)
      → is_enabled (get srv.allow disk s.gid).1 ≡ true
      → s.stage ≡ going
      → handled srv disk s env writes ≡ (
        looked_up srv disk s.gid,
        read_on s,
        broadcast srv.rooms queue_len s.gid s.device env,
        [],
      )
  unfolding on_poll on_frame on_envelope still_enabled close
  admitted_envelope srv disk s env writes admitted on =
      let sent = broadcast srv.rooms queue_len s.gid s.device env in
      let left = leave srv.rooms s.gid s.device in
      let known = looked_up srv disk s.gid in
      rw (admitted, close)
        (ap
          (λ g.
            while_going g (known, read_on s, sent, [])
              (record known { rooms = left.0 }, read_on s, sent, left.1))
          on)

  refused_envelope :
      (srv : Server) (disk : Disk) (s : LeafSession) (env : Bytes) (writes : Bool)
      → is_enabled (get srv.allow disk s.gid).1 ≡ false
      → let out = handled srv disk s env writes in
        (out.2 ≡ [])
        × (out.0.rooms ≡ (leave srv.rooms s.gid s.device).0)
        × (out.1 ≡ ends (put (read_on s) writes (write_frame [] error disabled)) finished)
  unfolding on_poll on_frame on_envelope still_enabled close
  refused_envelope srv disk s env writes refused =
      rw (refused, close)
        (
          refl,
          ap₂ (λ g d. (leave srv.rooms g d).0)
              (put-names (read_on s) writes (write_frame [] error disabled)).0
              (put-names (read_on s) writes (write_frame [] error disabled)).1,
          refl,
        )

  -- The frame of an envelope arrives at a session that holds nothing. If its group is enabled, the
  -- envelope is broadcast to the group for the session's device, the members of every group are
  -- what they were, and the session goes on and writes nothing. If not, no queue gets anything, the
  -- device is out of the room of its own group, the members of other groups are what they were, and
  -- the session has ended, after the error frame, where that can be encoded and the transport takes
  -- it.
  pub envelope_needs_enabled_group :
      (srv : Server) (disk : Disk) (s : LeafSession) (env frame refusal : Bytes) (writes : Bool)
      (j : Text)
      → s.stage ≡ going
      → s.held ≡ []
      → s.socket ≡ []
      → write_frame [] payload env ≡ ok frame
      → write_frame [] error disabled ≡ ok refusal
      → let out = serve disabled queue_len srv disk s (arrived frame) writes in
        let admitted = is_enabled (get srv.allow disk s.gid).1 in
        (out.2 ≡ (if admitted then broadcast srv.rooms queue_len s.gid s.device env else []))
        × (room j out.0.rooms ≡ (
            if admitted
            then room j srv.rooms
            else if s.gid == j
            then others s.device (room s.gid srv.rooms)
            else room j srv.rooms))
        × (out.1.stage ≡ (if admitted then going else finished))
        × (out.1.written
            ≡ (if admitted then s.written else if writes then s.written ++ refusal else s.written))
  unfolding still_enabled
  envelope_needs_enabled_group srv disk s env frame refusal writes j on h w framed said =
      let whole = arrived_envelope srv disk s env frame writes on h w framed in
      elim (Bool-cases (is_enabled (get srv.allow disk s.gid).1)) [
        | inl y ↦
            let same = whole ∙ admitted_envelope srv disk s env writes y on in
            rw y (
              ap (λ o. o.2) same,
              ap (λ o. room j o.0.rooms) same,
              ap (λ o. o.1.stage) same ∙ on,
              ap (λ o. o.1.written) same,
            )
        | inr n ↦
            let (silent, left, over) = refused_envelope srv disk s env writes n in
            rw n (
              ap (λ o. o.2) whole ∙ silent,
              ap (λ o. room j o.0.rooms) whole
                  ∙ ap (room j) left
                  ∙ room-leave srv.rooms s.gid j s.device,
              ap (λ o. o.1.stage) whole ∙ ap (λ t. t.stage) over,
              ap (λ o. o.1.written) whole
                  ∙ ap (λ t. t.written) over
                  ∙ ap (λ r. (put (read_on s) writes r).written) said
                  ∙ put-written (read_on s) writes refusal,
            )
      ]

  close-session : (out : Served) → (close disabled queue_len out).1 ≡ out.1
  unfolding close
  close-session (srv, s, o) =
      let left = leave srv.rooms s.gid s.device in
      while-session s.stage (srv, s, o, []) (record srv { rooms = left.0 }, s, o, left.1) refl

  queued_written :
      (srv : Server) (disk : Disk) (s : LeafSession) (env frame : Bytes)
      → s.stage ≡ going
      → write_frame [] payload env ≡ ok frame
      → (serve disabled queue_len srv disk s (queued (some env)) true).1.written
        ≡ s.written ++ frame
  unfolding round put
  queued_written srv disk s env frame on framed =
      ap (λ o. o.1.written) (served srv disk s (queued (some env)) true on)
      ∙ ap (λ t. t.written)
          (close-session (srv, put (record s { held = [] }) true (write_frame [] payload env), []))
      ∙ ap (λ r. (put (record s { held = [] }) true r).written) framed

module _ (disabled : Bytes) (queue_len later_len : ℕ → ℕ) where
  -- Two sessions of an enabled group, `from` of one device that holds nothing, and `to`, whose
  -- queue stands in the room for another device and holds less than 16 frames: when the frame of
  -- an envelope arrives at `from`, the envelope is put into the queue of `to`, and when `to` takes
  -- it from there and the write succeeds, it sends the same frame to its device.
  pub envelope_reaches_member :
      (srv later : Server) (disk later_disk : Disk) (from to : LeafSession) (env frame : Bytes)
      (writes : Bool)
      → from.stage ≡ going
      → from.held ≡ []
      → from.socket ≡ []
      → write_frame [] payload env ≡ ok frame
      → is_enabled (get srv.allow disk from.gid).1 ≡ true
      → any (λ m. m.tx == to.tx && not (is_device from.device m)) (room from.gid srv.rooms) ≡ true
      → queue_len to.tx < queue_max
      → to.stage ≡ going
      → (any
            (λ o. o.0 == to.tx && o.1 == env)
            (serve disabled queue_len srv disk from (arrived frame) writes).2
          ≡ true)
        × ((serve disabled later_len later later_disk to (queued (some env)) true).1.written
            ≡ to.written ++ frame)
  envelope_reaches_member srv later disk later_disk from to env frame writes on h w framed admitted
        there has_room on' =
      (
        ap (any (λ o. o.0 == to.tx && o.1 == env)) (
              ap (λ o. o.2)
                (arrived_envelope disabled queue_len srv disk from env frame writes on h w framed
                  ∙ admitted_envelope disabled queue_len srv disk from env writes admitted on)
              ∙ broadcast-room srv.rooms queue_len from.gid from.device env)
            ∙ offered queue_len from.device env to.tx (room from.gid srv.rooms) has_room there,
        queued_written disabled later_len later later_disk to env frame on' framed,
      )
