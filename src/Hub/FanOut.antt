-- ===== src/Hub/FanOut.antt =====
-- `apply_from`: what the other peers get, and what a second delivery does.
use zsync.Base.{
  if◌then◌else◌, Bool-cases, Bytes, Text, codes, text_beq, text_beq_iff, text_eq, Result, nat_eq,
  ok, err, ℕ, ◌≡◌, refl, sym, ap, ◌∙◌, ◌≢◌, ◌↔◌, inl, inr, true, false, some, List, [], ◌∷◌, ◌++◌,
  append-nil, arith,
}
use zsync.Protocol.{Clip, ClipAck, ProtoError}
use zsync.Protocol.Clips.{verify_clip}
use zsync.Clipboard.{Backend}
use zsync.Suppress.Seen.{accept, accept-replay}
use zsync.Hub.{Hub, Outbound, HubError, Outcome, ack, refusal, apply_remote, apply_from, fan_out}
use zsync.Hub.Apply.{after_offer, apply_remote_cases, store_cases, apply_remote_quiet}

-- What a call of `apply_from` puts into the channel.
abbrev pub fanned : Clip → Text → Result HubError ClipAck → List Outbound
fanned clip from_peer (err e) = []
fanned clip from_peer (ok a) =
    if a.ok_flag then record { clip = clip; skip = some from_peer } ∷ [] else []

fan_out_lem :
    {B : Type 0} (clip : Clip) (from_peer : Text) (out : Outcome B ClipAck)
    → ((fan_out clip from_peer out).1 ≡ out.1)
      × ((fan_out clip from_peer out).0.sent ≡ out.0.sent ++ fanned clip from_peer out.1)
      × ((fan_out clip from_peer out).0.clipboard ≡ out.0.clipboard)
      × ((fan_out clip from_peer out).0.seen ≡ out.0.seen)
unfolding fan_out
fan_out_lem clip from_peer (hub, err e) = (refl, sym (append-nil hub.sent), refl, refl)
fan_out_lem clip from_peer (hub, ok a) = elim (Bool-cases a.ok_flag) [
  | inl good ↦ rw good (refl, refl, refl, refl)
  | inr bad ↦ rw bad (refl, sym (append-nil hub.sent), refl, refl)
]

module _ {B : Type 0} (backend : Backend B) (sha256 : Bytes → Bytes) where
  -- `apply_from` answers what `apply_remote` answers, and sends the clip on as it arrived, marked
  -- with the peer that it came from, exactly when that answer is positive; otherwise nothing.
  pub apply_from_fans_out :
      (hub : Hub B) (clip : Clip) (from_peer : Text) (now : ℕ)
      → let out = apply_from backend sha256 hub clip from_peer now in
        let alone = apply_remote backend sha256 hub clip now in
        (out.1 ≡ alone.1)
        × (out.0.sent ≡ hub.sent ++ fanned clip from_peer alone.1)
        × (out.0.clipboard ≡ alone.0.clipboard)
        × (out.0.seen ≡ alone.0.seen)
  unfolding apply_from
  apply_from_fans_out hub clip from_peer now =
      let alone = apply_remote backend sha256 hub clip now in
      let (r, s, c, e) = fan_out_lem clip from_peer alone in
      (
        r,
        s
            ∙ ap (λ l. l ++ fanned clip from_peer alone.1)
                (apply_remote_quiet backend sha256 hub clip now).0,
        c,
        e,
      )

  -- The second delivery of a clip changes nothing.
  abbrev Idle : Clip → ℕ → Outcome B ClipAck → Type 0
  Idle clip later out = (apply_remote backend sha256 out.0 clip later).0 ≡ out.0

  refused_idle :
      (hub : Hub B) (clip : Clip) (e : ProtoError) (later : ℕ)
      → verify_clip sha256 clip ≡ err e
      → apply_remote backend sha256 hub clip later
        ≡ (hub, ok (ack clip.meta.hash false (refusal e)))
  unfolding apply_remote
  refused_idle hub clip e later h = rw (h, apply_remote)

  own_idle :
      (hub : Hub B) (clip : Clip) (later : ℕ)
      → verify_clip sha256 clip ≡ ok tt
      → clip.meta.origin_id ≡ hub.node_id
      → apply_remote backend sha256 hub clip later
        ≡ (hub, ok (ack clip.meta.hash true (codes "own-origin")))
  unfolding apply_remote
  own_idle hub clip later h o =
      rw (h, apply_remote, (text_beq_iff clip.meta.origin_id hub.node_id).1 o)

  -- A hub that has seen the number of a clip refuses the clip.
  seen_idle :
      (hub : Hub B) (clip : Clip) (later : ℕ)
      → verify_clip sha256 clip ≡ ok tt
      → clip.meta.origin_id ≢ hub.node_id
      → accept hub.seen clip.meta.origin_id clip.meta.seq ≡ (hub.seen, false)
      → apply_remote backend sha256 hub clip later
        ≡ (hub, ok (ack clip.meta.hash true (codes "duplicate")))
  unfolding apply_remote
  seen_idle hub clip later h o s =
      rw (h, apply_remote, other (text_beq_iff clip.meta.origin_id hub.node_id), s)
    where
      other :
          (text_beq clip.meta.origin_id hub.node_id ≡ true) ↔ (clip.meta.origin_id ≡ hub.node_id)
          → text_beq clip.meta.origin_id hub.node_id ≡ false
      other i = ground (arith, i)

  again :
      (hub : Hub B) (clip : Clip)
      → accept (after_offer hub clip).seen clip.meta.origin_id clip.meta.seq
        ≡ ((after_offer hub clip).seen, false)
  again hub clip =
      accept-replay hub.seen clip.meta.origin_id clip.meta.seq clip.meta.seq (omega arith)

  -- Whatever the first delivery of a clip did, a second one, at any time and before any other
  -- clip, changes nothing at all: the clipboard, the suppressed hashes and the numbers seen stay.
  pub apply_remote_twice :
      (hub : Hub B) (clip : Clip) (now later : ℕ)
      → let hub' = (apply_remote backend sha256 hub clip now).0 in
        (apply_remote backend sha256 hub' clip later).0 ≡ hub'
  apply_remote_twice hub clip now later =
      apply_remote_cases backend sha256 (Idle clip later) hub clip now
        (λ e h. ap (λ o. o.0) (refused_idle hub clip e later h))
        (λ h o. ap (λ o. o.0) (own_idle hub clip later h o))
        (λ h o f. ap (λ o. o.0) (seen_idle (after_offer hub clip) clip later h o (again hub clip)))
        (λ n a. ap (λ o. o.0) (seen_idle _ clip later n.verified n.foreign (again hub clip)))
        (λ n a.
          store_cases backend sha256 (Idle clip later) (after_offer hub clip) clip now
            (λ e b. ap (λ o. o.0) (seen_idle _ clip later n.verified n.foreign (again hub clip)))
            (λ i b. ap (λ o. o.0) (seen_idle _ clip later n.verified n.foreign (again hub clip))))

  abbrev Lost : Clip → ℕ → Outcome B ClipAck → Type 0
  Lost clip later out =
      (e : HubError)
      → out.1 ≡ err e
      → apply_remote backend sha256 out.0 clip later
        ≡ (out.0, ok (ack clip.meta.hash true (codes "duplicate")))

  -- When the clipboard refuses a clip, the peer's next attempt to deliver it is answered with a
  -- positive acknowledgement, and the clip is not written.
  pub failed_write_is_lost :
      (hub : Hub B) (clip : Clip) (now later : ℕ) (e : HubError)
      → (apply_remote backend sha256 hub clip now).1 ≡ err e
      → let hub' = (apply_remote backend sha256 hub clip now).0 in
        apply_remote backend sha256 hub' clip later
        ≡ (hub', ok (ack clip.meta.hash true (codes "duplicate")))
  failed_write_is_lost hub clip now later =
      apply_remote_cases backend sha256 (Lost clip later) hub clip now (λ e h x b. cc)
        (λ h o x b. cc) (λ h o f x b. cc) (λ n a x b. cc)
        (λ n a.
          store_cases backend sha256 (Lost clip later) (after_offer hub clip) clip now
            (λ e b x c. seen_idle _ clip later n.verified n.foreign (again hub clip))
            (λ i b x c. cc))

  abbrev Acked : Clip → ℕ → Outcome B ClipAck → Type 0
  Acked clip later out =
      (reason : Text) × (apply_remote backend sha256 out.0 clip later
        ≡ (out.0, ok (ack clip.meta.hash true reason)))

  second_ack :
      (hub : Hub B) (clip : Clip) (now later : ℕ)
      → verify_clip sha256 clip ≡ ok tt
      → Acked clip later (apply_remote backend sha256 hub clip now)
  second_ack hub clip now later good =
      apply_remote_cases backend sha256 (Acked clip later) hub clip now (λ e h. absurd (never e h))
        (λ h o. (codes "own-origin", own_idle hub clip later h o))
        (λ h o f. (codes "duplicate", seen_idle _ clip later h o (again hub clip)))
        (λ n a. (codes "duplicate", seen_idle _ clip later good n.foreign (again hub clip)))
        (λ n a.
          store_cases backend sha256 (Acked clip later) (after_offer hub clip) clip now
            (λ e b. (codes "duplicate", seen_idle _ clip later good n.foreign (again hub clip)))
            (λ i b. (codes "duplicate", seen_idle _ clip later good n.foreign (again hub clip))))
    where
      never : (e : ProtoError) → verify_clip sha256 clip ≡ err e → ⊥
      never e h = ground arith

  -- A verified clip that is delivered again, after any first delivery, is fanned out again, whole
  -- and with the peer that it now came from, although nothing of it is applied.
  pub duplicate_fans_out :
      (hub : Hub B) (clip : Clip) (from_peer : Text) (now later : ℕ)
      → verify_clip sha256 clip ≡ ok tt
      → let hub' = (apply_remote backend sha256 hub clip now).0 in
        (apply_from backend sha256 hub' clip from_peer later).0
        ≡ record hub' { sent = hub'.sent ++ record { clip = clip; skip = some from_peer } ∷ [] }
  unfolding apply_from fan_out
  duplicate_fans_out hub clip from_peer now later h =
      let (reason, e) = second_ack hub clip now later h in rw e
