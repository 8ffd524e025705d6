-- ===== src/Daemon/Session/Delivery.antt =====
-- A clip on its way from the watcher of one node, through a session, to the clipboard of another.
use zsync.Base.{
  if◌then◌else◌, is_empty, Bytes, Text, text_eq, Result-cases, Result, nat_eq, ok, err, ℕ, ◌≡◌,
  refl, sym, ap, ap₂, ◌∙◌, subst, ◌≢◌, inl, inr, Bool, true, false, Option, none, some, [], ◌∷◌,
  ◌++◌, append-nil, arith,
}
use zsync.Protocol.{
  ProtoError, clip_ack, io, early_eof, FrameType, Hello, ClipMeta, ClipAck, Json, hash, clip,
}
use zsync.Protocol
use zsync.Protocol.Frame.{encode_json, read_frame}
use zsync.Protocol.Frame.Header.{read_frame-encode_frame}
use zsync.Protocol.Clips.{encode_clip, encode_clip_body, decode_clip}
use zsync.Protocol.Clips.RoundTrip.{sized, decode_clip-encode_clip_body}
use zsync.Clipboard.{Item, Backend}
use zsync.Protocol.Mime.{detect_mime}
use zsync.Suppress.Seen.{accept}
use zsync.Hub.{Hub, Outbound, Outcome, hash_of, already_present, local_observed, apply_remote}
use zsync.Hub.Apply.{IsNews, item_of, after_offer, apply_remote_cases, store_cases}
use zsync.Hub.FanOut.{apply_from_fans_out}
use zsync.Hub.Local.{IsOwn, local_observed_sends}
use zsync.Protocol.Reading.{ready, poll_ready}
use zsync.Daemon.Session.{
  Session, Progress, if_running, running, received, arrived, message, on_poll, on_frame, on_clip,
  on_received, acknowledge, applied, round, step, send,
}

impossible : false ≡ true → ⊥
impossible h = ground arith

-- The frame of a clip has its body, and is read back with it.
frame_of_clip :
    (codec : Json ClipMeta) (c : Protocol.Clip) (frame : Bytes)
    → encode_clip codec c ≡ ok frame
    → (body : Bytes) × (decode_clip codec body ≡ ok (sized c))
      × (read_frame (frame ++ []) ≡ ok ((clip, body), []))
unfolding encode_clip
frame_of_clip codec c frame h = elim (Result-cases (encode_clip_body codec c)) [
  | inl (x, bad) ↦ absurd (failed x bad)
  | inr (body, enc) ↦ (
    body,
    decode_clip-encode_clip_body codec c body enc,
    read_frame-encode_frame clip body frame [] (rw enc at h),
  )
]
  where
    failed : (x : ProtoError) → encode_clip_body codec c ≡ err x → ⊥
    failed x bad = ground arith

module _ {B : Type 0} where
  send-hub :
      (s : Session B) (writes : Bool) (b : Result ProtoError Bytes) → (send s writes b).hub ≡ s.hub
  unfolding send
  send-hub s writes (err e) = refl
  send-hub s true (ok b) = refl
  send-hub s false (ok b) = refl

  if_running-hub : (p : Progress) (s t : Session B) → s.hub ≡ t.hub → (if_running p s t).hub ≡ t.hub
  if_running-hub running s t h = h
  if_running-hub Progress.closed s t h = refl
  if_running-hub (Progress.failed e) s t h = refl

  if-hub : (b : Bool) (s t : Session B) → s.hub ≡ t.hub → (if b then s else t).hub ≡ t.hub
  if-hub true s t h = h
  if-hub false s t h = refl

module _ {B : Type 0} (backend : Backend B) (sha256 : Bytes → Bytes) where
  -- A clip that is news for the node, and not the content of its clipboard, is written.
  pub news_written :
      (hub : Hub B) (c : Protocol.Clip) (now : ℕ)
      → IsNews backend sha256 hub c
      → already_present backend sha256 hub c.meta.hash ≡ false
      → (apply_remote backend sha256 hub c now).0.clipboard
        ≡ (backend.set hub.clipboard (item_of c)).0
  unfolding already_present
  news_written hub c now news missing =
      apply_remote_cases backend sha256 Goal hub c now (λ e h. absurd (cc))
        (λ h o. absurd (news.foreign o)) (λ h o f. absurd (impossible (sym f ∙ news.fresh)))
        (λ n a. absurd (impossible (sym missing ∙ a)))
        (λ n a.
          store_cases backend sha256 Goal (after_offer hub c) c now (λ e b. refl) (λ i b. refl))
    where
      Goal : Outcome B ClipAck → Type 0
      Goal out = out.0.clipboard ≡ (backend.set hub.clipboard (item_of c)).0

module _ {B : Type 0} (backend : Backend B) (sha256 : Bytes → Bytes) (codec : Json ClipMeta)
    (ack_codec : Json ClipAck) (hello_codec : Json Hello) (greeting : Hello)
    (peer_id : Option Text) where
  acknowledge-hub :
      (s : Session B) (out : Outcome B ClipAck) (now : ℕ) (writes : Bool)
      → (acknowledge backend sha256 codec ack_codec hello_codec greeting peer_id s out now
          writes).hub
        ≡ out.0
  unfolding acknowledge
  acknowledge-hub s (hub, err e) now writes = refl
  acknowledge-hub s (hub, ok a) now writes =
      if_running-hub sent.progress
        (if a.ok_flag then record sent { last_sync = some now } else sent) sent
        (if-hub a.ok_flag (record sent { last_sync = some now }) sent refl)
      ∙ send-hub (record s { hub = hub }) writes (encode_json ack_codec clip_ack a)
    where
      sent : Session B
      sent = send (record s { hub = hub }) writes (encode_json ack_codec clip_ack a)

  applied-clipboard :
      (from_peer : Option Text) (hub : Hub B) (c : Protocol.Clip) (now : ℕ)
      → (applied backend sha256 codec ack_codec hello_codec greeting peer_id from_peer hub c
          now).0.clipboard
        ≡ (apply_remote backend sha256 hub c now).0.clipboard
  applied-clipboard none hub c now = refl
  applied-clipboard (some id) hub c now = (apply_from_fans_out backend sha256 hub c id now).2

  decoded :
      (s : Session B) (c : Protocol.Clip) (body : Bytes) (now : ℕ) (writes : Bool)
      → decode_clip codec body ≡ ok c
      → on_poll backend sha256 codec ack_codec hello_codec greeting peer_id s
          (ready (clip, body) [])
          now
          writes
        ≡ acknowledge backend sha256 codec ack_codec hello_codec greeting peer_id
            (record s { held = []; socket = [] })
            (applied backend sha256 codec ack_codec hello_codec greeting peer_id peer_id s.hub c
              now)
            now
            writes
  unfolding on_poll on_frame on_clip
  decoded s c body now writes h = rw (h, on_poll, on_frame, on_clip) refl

  -- The frame of a clip that is news is written to the clipboard by the session that reads it.
  frame_written :
      (s : Session B) (c : Protocol.Clip) (frame : Bytes) (now : ℕ) (writes : Bool)
      → encode_clip codec c ≡ ok frame
      → s.progress ≡ running
      → s.held ≡ []
      → s.socket ≡ []
      → IsNews backend sha256 s.hub (sized c)
      → already_present backend sha256 s.hub c.meta.hash ≡ false
      → (step backend sha256 codec ack_codec hello_codec greeting peer_id s
          (arrived frame)
          now
          writes).hub.clipboard
        ≡ (backend.set s.hub.clipboard (item_of c)).0
  unfolding step round
  frame_written s c frame now writes enc on h w news missing =
      let (body, dec, read) = frame_of_clip codec c frame enc in
      ap (λ t. t.hub.clipboard)
        (ap
            (λ p.
              if_running p
                (round backend sha256 codec ack_codec hello_codec greeting peer_id s (arrived frame)
                  now writes)
                s)
            on
          ∙ ap
              (λ p.
                on_poll backend sha256 codec ack_codec hello_codec greeting peer_id s p now writes)
              (poll_ready read_frame s.held (s.socket ++ frame) ((clip, body), [])
                (ap₂ (λ x y. read_frame (x ++ (y ++ frame))) h w
                  ∙ ap read_frame (sym (append-nil frame))
                  ∙ read))
          ∙ decoded s (sized c) body now writes dec)
      ∙ ap (λ x. x.clipboard)
          (acknowledge-hub (record s { held = []; socket = [] })
            (applied backend sha256 codec ack_codec hello_codec greeting peer_id peer_id s.hub
              (sized c) now)
            now writes)
      ∙ applied-clipboard peer_id s.hub (sized c) now
      ∙ news_written backend sha256 s.hub (sized c) now news missing

  -- A message of the hub that this peer may have is written to the peer.
  message_sent :
      (s : Session B) (c : Protocol.Clip) (frame : Bytes) (now : ℕ)
      → encode_clip codec c ≡ ok frame
      → s.progress ≡ running
      → (step backend sha256 codec ack_codec hello_codec greeting peer_id s
          (received (message (record { clip = c; skip = none })))
          now
          true).written
        ≡ s.written ++ frame
  unfolding step round on_received send
  message_sent s c frame now enc on =
      ap (λ t. t.written)
        (ap
          (λ p.
            if_running p
              (round backend sha256 codec ack_codec hello_codec greeting peer_id s
                (received (message (record { clip = c; skip = none }))) now true)
              s)
          on)
      ∙ ap (λ b. (send (record s { held = [] }) true b).written) enc

module _ {B C : Type 0} (backend : Backend B) (other_backend : Backend C) (sha256 : Bytes → Bytes)
    (codec : Json ClipMeta) (ack_codec : Json ClipAck) (hello_codec : Json Hello)
    (greeting other_greeting : Hello) (peer_id other_id : Option Text) where
  -- The watcher of a node sends an item, which came without a hash or with the right one, where
  -- that is not empty; the clip can be encoded; `here` is a session of that node that still runs,
  -- and `there` one of another node that runs and holds no bytes; for that other node the sender
  -- is another, the number is above those seen, and the content is not on its clipboard. Then the
  -- clip is announced to the sessions of the first node, `here` writes a frame for it, and when
  -- this frame arrives at `there`, that session writes the item of this clip to the clipboard of
  -- its node, and the clip has the copied item's content, its name, and its content type, or the
  -- one detected where it has none.
  pub copied_item_arrives :
      (hub : Hub B) (item : Item) (now sent_at read_at : ℕ) (saves writes : Bool)
      (c : Protocol.Clip) (frame : Bytes) (here : Session B) (there : Session C)
      → (local_observed backend sha256 hub item now saves).1 ≡ ok (some c)
      → hash_of backend sha256 item ≡ hash sha256 item.content
      → is_empty (hash sha256 item.content) ≡ false
      → encode_clip codec c ≡ ok frame
      → here.progress ≡ running
      → there.progress ≡ running
      → there.held ≡ []
      → there.socket ≡ []
      → c.meta.origin_id ≢ there.hub.node_id
      → (accept there.hub.seen c.meta.origin_id c.meta.seq).1 ≡ true
      → already_present other_backend sha256 there.hub c.meta.hash ≡ false
      → let out : Outbound = record { clip = c; skip = none } in
        ((local_observed backend sha256 hub item now saves).0.sent ≡ hub.sent ++ out ∷ [])
        × ((step backend sha256 codec ack_codec hello_codec greeting peer_id here
              (received (message out))
              sent_at
              true).written
            ≡ here.written ++ frame)
        × ((step other_backend sha256 codec ack_codec hello_codec other_greeting other_id there
              (arrived frame)
              read_at
              writes).hub.clipboard
            ≡ (other_backend.set there.hub.clipboard (item_of c)).0)
        × (c.content ≡ item.content)
        × (c.meta.name ≡ item.name)
        × (c.meta.mime ≡ (if is_empty item.mime then detect_mime item.content else item.mime))
  copied_item_arrives hub item now sent_at read_at saves writes c frame here there sent good given
        enc on on' h w foreign fresh missing =
      let (own, verified) =
        local_observed_sends backend sha256 hub item now saves c sent good given in
      (
        own.announced,
        message_sent backend sha256 codec ack_codec hello_codec greeting peer_id here c frame
            sent_at enc on,
        frame_written other_backend sha256 codec ack_codec hello_codec other_greeting other_id there
            c frame read_at writes enc on' h w
            (subst (IsNews other_backend sha256 there.hub) (same own)
              (record { verified = verified; foreign = foreign; fresh = fresh }))
            missing,
        own.content,
        own.named,
        own.typed,
      )
    where
      same :
          IsOwn backend sha256 hub item (local_observed backend sha256 hub item now saves).0 c
          → c ≡ sized c
      same own = ap (λ n. record c { meta = record (c.meta) { size = n } }) own.sized
