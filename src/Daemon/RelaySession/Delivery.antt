-- ===== src/Daemon/RelaySession/Delivery.antt =====
-- A clip on its way from one node to another, sealed, through the relay.
use zsync.Base.{
  length, Bytes, text_eq, Result-cases, nat_eq, ok, err, ℕ, ◌+◌, ◌%◌, ◌^◌, ◌<◌, ◌≡◌, refl, sym, ap,
  ap₂, ◌∙◌, inl, inr, Bool, true, false, Option, none, [], ◌++◌, append-nil, arith,
}
use zsync.Protocol.{ProtoError, io, early_eof, ClipMeta, ClipAck, Json}
use zsync.Protocol
use zsync.Protocol.{hex_encode}
use zsync.Protocol.Clips.{encode_clip_body, decode_clip}
use zsync.Protocol.Clips.RoundTrip.{sized, decode_clip-encode_clip_body}
use zsync.Clipboard.{Backend}
use zsync.Group.{Aead, Opened, seal, sender_len}
use zsync.Group.Envelopes.{open_envelope-seal}
use zsync.Relay.{payload, write_frame, read_frame}
use zsync.Relay.Frames.{read_frame-write_frame}
use zsync.Hub.{Outbound, Outcome, already_present, apply_from}
use zsync.Hub.Apply.{IsNews, item_of}
use zsync.Hub.FanOut.{apply_from_fans_out}
use zsync.Protocol.Reading.{ready, poll_ready}
use zsync.Daemon.Session.{Session, if_running, running, received, arrived, message, send}
use zsync.Daemon.Session.Delivery.{news_written}
use zsync.Daemon.RelaySession.{
  RelaySession, send_sealed, keep_hub, seal_clip, apply_opened, on_envelope, on_frame, on_poll,
  on_received, round, step,
}

keep_hub-hub :
    {B : Type 0} (s : Session B) (out : Outcome B ClipAck) (now : ℕ)
    → (keep_hub s out now).hub ≡ out.0
unfolding keep_hub
keep_hub-hub s (hub, ok a) now = refl
keep_hub-hub s (hub, err e) now = refl

module _ {B : Type 0} (backend : Backend B) (sha256 : Bytes → Bytes) (codec : Json ClipMeta)
    (aead : Aead) (aead_key : Bytes → Option Bytes) (secret group_id sender : Bytes) where
  sealed_body :
      (c : Protocol.Clip) (counter : ℕ) (nonce env : Bytes)
      → seal_clip backend sha256 codec aead aead_key secret group_id sender c counter nonce ≡ ok env
      → (body : Bytes) × (encode_clip_body codec c ≡ ok body)
        × (seal aead aead_key secret group_id sender counter nonce body ≡ ok env)
  unfolding seal_clip
  sealed_body c counter nonce env h = elim (Result-cases (encode_clip_body codec c)) [
    | inl (x, bad) ↦ absurd (ground arith)
    | inr (body, good) ↦
        elim (Result-cases (seal aead aead_key secret group_id sender counter nonce body)) [
          | inl (x, bad) ↦ absurd (ground arith)
          | inr (got, sealed) ↦ (body, good, ground arith)
        ]
  ]

  opened_written :
      (s : Session B) (opened : Opened) (c : Protocol.Clip) (now : ℕ)
      → decode_clip codec opened.plaintext ≡ ok c
      → IsNews backend sha256 s.hub c
      → already_present backend sha256 s.hub c.meta.hash ≡ false
      → (apply_opened backend sha256 codec aead aead_key secret group_id sender s opened
          now).hub.clipboard
        ≡ (backend.set s.hub.clipboard (item_of c)).0
  unfolding apply_opened
  opened_written s opened c now dec news missing =
      ap (λ t. t.hub.clipboard) shape
      ∙ ap (λ h. h.clipboard)
          (keep_hub-hub s (apply_from backend sha256 s.hub c (hex_encode opened.sender) now) now)
      ∙ (apply_from_fans_out backend sha256 s.hub c (hex_encode opened.sender) now).2
      ∙ news_written backend sha256 s.hub c now news missing
    where
      shape :
          apply_opened backend sha256 codec aead aead_key secret group_id sender s opened now
          ≡ keep_hub s (apply_from backend sha256 s.hub c (hex_encode opened.sender) now) now
      shape = rw (dec, apply_opened, news.verified) refl

  enveloped :
      (s : Session B) (from body env nonce : Bytes) (counter : ℕ) (c : Protocol.Clip) (now : ℕ)
      (writes : Bool)
      → length from ≡ sender_len
      → length nonce ≡ 24
      → counter < 2 ^ 64
      → seal aead aead_key secret group_id from counter nonce body ≡ ok env
      → decode_clip codec body ≡ ok c
      → IsNews backend sha256 s.hub c
      → already_present backend sha256 s.hub c.meta.hash ≡ false
      → (on_poll backend sha256 codec aead aead_key secret group_id sender s
          (ready (payload, env) [])
          now
          writes).hub.clipboard
        ≡ (backend.set s.hub.clipboard (item_of c)).0
  unfolding on_poll on_frame on_envelope
  enveloped s from body env nonce counter c now writes hs hn small sealed dec news missing =
      ap (λ t. t.hub.clipboard) shape ∙ opened_written quiet opened c now dec news missing
    where
      quiet : Session B
      quiet = record s { held = []; socket = [] }

      opened : Opened
      opened = record { sender = from; counter = counter; plaintext = body }

      shape :
          on_envelope backend sha256 codec aead aead_key secret group_id sender quiet env now
          ≡ apply_opened backend sha256 codec aead aead_key secret group_id sender quiet opened now
      shape =
          rw
            (
              open_envelope-seal aead aead_key secret group_id from nonce body env counter hs hn
                  small sealed,
              on_envelope,
            )
            refl

  -- What the session writes for a clip of its own node.
  message_sealed :
      (s : RelaySession B) (c : Protocol.Clip) (env frame nonce : Bytes) (now : ℕ)
      → seal_clip backend sha256 codec aead aead_key secret group_id sender c
          ((s.counter + 1) % 2 ^ 64)
          nonce
        ≡ ok env
      → write_frame [] payload env ≡ ok frame
      → s.session.progress ≡ running
      → (step backend sha256 codec aead aead_key secret group_id sender s
          (received (message (record { clip = c; skip = none })))
          now
          nonce
          true).session.written
        ≡ s.session.written ++ frame
  unfolding step round on_received send_sealed send
  message_sealed s c env frame nonce now sealed framed on =
      ap (λ t. t.session.written)
        (ap
          (λ p.
            if_running p
              (round backend sha256 codec aead aead_key secret group_id sender s
                (received (message (record { clip = c; skip = none }))) now nonce true)
              s)
          on)
      ∙ ap (λ r. (send_sealed (record (s.session) { held = [] }) true r).written) sealed
      ∙ ap (λ r. (send (record (s.session) { held = [] }) true r).written) framed

module _ {B C : Type 0} (backend : Backend B) (other_backend : Backend C) (sha256 : Bytes → Bytes)
    (codec : Json ClipMeta) (aead : Aead) (aead_key : Bytes → Option Bytes)
    (secret group_id sender other_sender : Bytes) where
  -- Two nodes have the secret of a group; `here` is a relay session of the one that still runs,
  -- and `there` one of the other that runs and holds no bytes. The hub of the first hands its
  -- session a clip of its own, which is sealed with a nonce of 24 bytes under the id of the node,
  -- of 16 bytes; with the size that the sender sets, the clip is news for the other node, and its
  -- content is not on the clipboard there. Then `here` writes a frame with the envelope, and when
  -- this frame arrives at `there`, that session writes the item to the clipboard of its node.
  pub relayed_clip_arrives :
      (c : Protocol.Clip) (env frame nonce : Bytes) (sent_at read_at : ℕ) (other_nonce : Bytes)
      (writes : Bool) (here : RelaySession B) (there : RelaySession C)
      → seal_clip backend sha256 codec aead aead_key secret group_id sender c
          ((here.counter + 1) % 2 ^ 64)
          nonce
        ≡ ok env
      → write_frame [] payload env ≡ ok frame
      → length sender ≡ sender_len
      → length nonce ≡ 24
      → here.session.progress ≡ running
      → there.session.progress ≡ running
      → there.session.held ≡ []
      → there.session.socket ≡ []
      → IsNews other_backend sha256 there.session.hub (sized c)
      → already_present other_backend sha256 there.session.hub c.meta.hash ≡ false
      → let out : Outbound = record { clip = c; skip = none } in
        ((step backend sha256 codec aead aead_key secret group_id sender here
            (received (message out))
            sent_at
            nonce
            true).session.written
          ≡ here.session.written ++ frame)
        × ((step other_backend sha256 codec aead aead_key secret group_id other_sender there
              (arrived frame)
              read_at
              other_nonce
              writes).session.hub.clipboard
            ≡ (other_backend.set there.session.hub.clipboard (item_of c)).0)
  unfolding step round
  relayed_clip_arrives c env frame nonce sent_at read_at other_nonce writes here there sealed framed
        hs hn on on' h w news missing =
      let (body, enc, plain) =
        sealed_body backend sha256 codec aead aead_key secret group_id sender c
          ((here.counter + 1) % 2 ^ 64) nonce env sealed in
      (
        message_sealed backend sha256 codec aead aead_key secret group_id sender here c env frame
            nonce sent_at sealed framed on,
        ap (λ t. t.session.hub.clipboard)
              (ap
                  (λ p.
                    if_running p
                      (round other_backend sha256 codec aead aead_key secret group_id other_sender
                        there (arrived frame) read_at other_nonce writes)
                      there)
                  on'
                ∙ ap
                    (λ p. record there {
                      session =
                          on_poll other_backend sha256 codec aead aead_key secret group_id
                            other_sender there.session p read_at writes;
                    })
                    (poll_ready read_frame there.session.held (there.session.socket ++ frame)
                      ((payload, env), [])
                      (ap₂ (λ x y. read_frame (x ++ (y ++ frame))) h w
                        ∙ ap read_frame (sym (append-nil frame))
                        ∙ read_frame-write_frame payload env frame [] framed)))
            ∙ enveloped other_backend sha256 codec aead aead_key secret group_id other_sender
                there.session sender body env nonce ((here.counter + 1) % 2 ^ 64) (sized c) read_at
                writes hs hn (omega arith) plain (decode_clip-encode_clip_body codec c body enc)
                news missing,
      )
