-- ===== src/Hub/Apply.antt =====
-- What `apply_remote` and `apply_from` do with a clip from a peer.
use zsync.Base.{
  if◌then◌else◌, Bool-cases, Bytes, codes, text_beq, text_beq_iff, text_eq, Result-cases, nat_eq,
  ok, err, ℕ, ◌≡◌, refl, ◌≢◌, ◌⊎◌, inl, inr, true, false, [], arith,
}
use zsync.Protocol.{Clip, ClipAck, ProtoError}
use zsync.Protocol.Clips.{verify_clip}
use zsync.Clipboard.{Item, Backend}
use zsync.Suppress.Seen.{accept}
use zsync.Hub.{
  Hub, backend_failed, Outcome, note, ack, refusal, already_present, store, apply_remote,
}

-- The item that is written for a clip.
abbrev pub item_of : Clip → Item
item_of clip = record {
  mime = clip.meta.mime;
  content = clip.content;
  hash = clip.meta.hash;
  path = [];
  name = clip.meta.name;
}

-- The hub once the sequence number of a clip is recorded.
abbrev pub after_offer : {B : Type 0} → Hub B → Clip → Hub B
after_offer hub clip = record hub { seen = (accept hub.seen clip.meta.origin_id clip.meta.seq).0 }

module _ {B : Type 0} (backend : Backend B) (sha256 : Bytes → Bytes) where
  -- The clip is whole, from another node, and newer than what that node sent before.
  pub record IsNews (hub : Hub B) (clip : Clip) : Type 0 where
    pub verified : verify_clip sha256 clip ≡ ok tt
    pub foreign : clip.meta.origin_id ≢ hub.node_id
    pub fresh : (accept hub.seen clip.meta.origin_id clip.meta.seq).1 ≡ true

  -- The branches of `apply_remote`, each with what its tests say.
  pub apply_remote_cases {ℓ} :
      (P : Outcome B ClipAck → Type ℓ) (hub : Hub B) (clip : Clip) (now : ℕ)
      → ((e : ProtoError)
          → verify_clip sha256 clip ≡ err e
          → P (hub, ok (ack clip.meta.hash false (refusal e))))
      → (verify_clip sha256 clip ≡ ok tt
          → clip.meta.origin_id ≡ hub.node_id
          → P (hub, ok (ack clip.meta.hash true (codes "own-origin"))))
      → (verify_clip sha256 clip ≡ ok tt
          → clip.meta.origin_id ≢ hub.node_id
          → (accept hub.seen clip.meta.origin_id clip.meta.seq).1 ≡ false
          → P (after_offer hub clip, ok (ack clip.meta.hash true (codes "duplicate"))))
      → (IsNews hub clip
          → already_present backend sha256 (after_offer hub clip) clip.meta.hash ≡ true
          → P (
            note (after_offer hub clip) clip.meta.hash now,
            ok (ack clip.meta.hash true (codes "already-present")),
          ))
      → (IsNews hub clip
          → already_present backend sha256 (after_offer hub clip) clip.meta.hash ≡ false
          → P (store backend sha256 (after_offer hub clip) clip now))
      → P (apply_remote backend sha256 hub clip now)
  unfolding apply_remote
  apply_remote_cases P hub clip now refused own duplicate present new =
      elim (Result-cases (verify_clip sha256 clip)) [
        | inl (e, bad) ↦ rw (bad, apply_remote) (refused e bad)
        | inr (_, good) ↦
            rw (good, apply_remote)
              (elim (Bool-cases (text_beq clip.meta.origin_id hub.node_id)) [
                | inl same ↦
                    rw same (own good ((text_beq_iff clip.meta.origin_id hub.node_id).0 same))
                | inr other ↦
                    rw other
                      (elim (Bool-cases (accept hub.seen clip.meta.origin_id clip.meta.seq).1) [
                        | inl fresh ↦ rw fresh (written good (differs other) fresh)
                        | inr stale ↦ rw stale (duplicate good (differs other) stale)
                      ])
              ])
      ]
    where
      differs : text_beq clip.meta.origin_id hub.node_id ≡ false → clip.meta.origin_id ≢ hub.node_id
      differs e = ground (arith, text_beq_iff clip.meta.origin_id hub.node_id)

      written :
          verify_clip sha256 clip ≡ ok tt
          → clip.meta.origin_id ≢ hub.node_id
          → (accept hub.seen clip.meta.origin_id clip.meta.seq).1 ≡ true
          → P (
              if already_present backend sha256 (after_offer hub clip) clip.meta.hash
              then (
                note (after_offer hub clip) clip.meta.hash now,
                ok (ack clip.meta.hash true (codes "already-present")),
              )
              else store backend sha256 (after_offer hub clip) clip now)
      written good foreign fresh =
          let news : IsNews hub clip = record {
            verified = good;
            foreign = foreign;
            fresh = fresh;
          } in
          elim (Bool-cases (already_present backend sha256 (after_offer hub clip) clip.meta.hash)) [
            | inl there ↦ rw there (present news there)
            | inr missing ↦ rw missing (new news missing)
          ]

  -- `store` fails or succeeds with the clipboard.
  pub store_cases {ℓ} :
      (P : Outcome B ClipAck → Type ℓ) (hub : Hub B) (clip : Clip) (now : ℕ)
      → let set = backend.set hub.clipboard (item_of clip) in
        let noted = record (note hub clip.meta.hash now) { clipboard = set.0 } in
        ((e : Unit {0}) → set.1 ≡ err e → P (noted, err backend_failed))
        → ((stored : Item)
            → set.1 ≡ ok stored
            → P (note noted stored.hash now, ok (ack stored.hash true [])))
        → P (store backend sha256 hub clip now)
  unfolding store
  store_cases P hub clip now failed done =
      elim (Result-cases (backend.set hub.clipboard (item_of clip)).1) [
        | inl (e, bad) ↦ rw (bad, store) (failed e bad)
        | inr (stored, good) ↦ rw (good, store) (done stored good)
      ]

  abbrev Quiet : Hub B → Outcome B ClipAck → Type 0
  Quiet hub out =
      (out.0.sent ≡ hub.sent) × (out.0.state ≡ hub.state) × (out.0.node_id ≡ hub.node_id)

  -- `apply_remote` broadcasts nothing and uses no sequence number, whatever the clip and its
  -- outcome.
  pub apply_remote_quiet :
      (hub : Hub B) (clip : Clip) (now : ℕ)
      → let hub' = (apply_remote backend sha256 hub clip now).0 in
        (hub'.sent ≡ hub.sent) × (hub'.state ≡ hub.state) × (hub'.node_id ≡ hub.node_id)
  apply_remote_quiet hub clip now =
      apply_remote_cases (Quiet hub) hub clip now (λ e h. (refl, refl, refl))
        (λ h o. (refl, refl, refl)) (λ h o f. (refl, refl, refl)) (λ n a. (refl, refl, refl))
        (λ n a.
          store_cases (Quiet hub) (after_offer hub clip) clip now (λ e b. (refl, refl, refl))
            (λ i b. (refl, refl, refl)))

  abbrev Written : Hub B → Clip → Outcome B ClipAck → Type 0
  Written hub clip out =
      (out.0.clipboard ≡ hub.clipboard)
      ⊎ (IsNews hub clip
          × (already_present backend sha256 hub clip.meta.hash ≡ false)
          × (out.0.clipboard ≡ (backend.set hub.clipboard (item_of clip)).0))

  -- The clipboard stays as it was, or the clip passed verification, came from another node with a
  -- number above those seen of it, was not the current content, and was written as it arrived.
  pub apply_remote_writes :
      (hub : Hub B) (clip : Clip) (now : ℕ)
      → let hub' = (apply_remote backend sha256 hub clip now).0 in
        (hub'.clipboard ≡ hub.clipboard)
        ⊎ (IsNews hub clip
            × (already_present backend sha256 hub clip.meta.hash ≡ false)
            × (hub'.clipboard ≡ (backend.set hub.clipboard (item_of clip)).0))
  unfolding already_present
  apply_remote_writes hub clip now =
      apply_remote_cases (Written hub clip) hub clip now (λ e h. inl refl) (λ h o. inl refl)
        (λ h o f. inl refl) (λ n a. inl refl)
        (λ n a.
          store_cases (Written hub clip) (after_offer hub clip) clip now (λ e b. inr (n, a, refl))
            (λ i b. inr (n, a, refl)))
