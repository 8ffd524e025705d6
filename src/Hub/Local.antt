-- ===== src/Hub/Local.antt =====
-- What a node sends of its own: clips that its watcher sees, and clips that the user copies.
use zsync.Base.{
  if◌then◌else◌, ltb, Bool-cases, length, is_empty, Bytes, Text, text_eq, nat_eq, ok, ℕ, ◌+◌, ◌%◌,
  ◌^◌, ◌≤◌, ◌<◌, ◌≡◌, refl, sym, ap, ◌∙◌, subst, ◌⊎◌, inl, inr, Bool, true, false, Option, none,
  some, [], ◌∷◌, ◌++◌, arith,
}
use zsync.Protocol.{Clip, hash, max_clip}
use zsync.Protocol.Clips.{verify_clip}
use zsync.Protocol.Clips.Verify.{verify_clip_iff}
use zsync.Clipboard.{Item, Backend}
use zsync.Protocol.Mime.{detect_mime}
use zsync.Suppress
use zsync.Hub.Echo.{suppressed_dropped}
use zsync.Suppress.Recent.{has-add, has-add-add}
use zsync.State.{next_seq}
use zsync.Hub.{Hub, Outcome, hash_of, publish, local_observed, pack, broadcast}

module _ {B : Type 0} (backend : Backend B) (sha256 : Bytes → Bytes) where
  -- The clip is the node's own, of this item, under the next number, which is on disk.
  pub record IsOwn (hub : Hub B) (item : Item) (hub' : Hub B) (clip : Clip) : Type 0 where
    pub origin : clip.meta.origin_id ≡ hub.node_id
    pub content : clip.content ≡ item.content
    pub named : clip.meta.name ≡ item.name
    pub typed :
        clip.meta.mime ≡ (if is_empty item.mime then detect_mime item.content else item.mime)
    pub hashed : clip.meta.hash ≡ hash_of backend sha256 item
    pub sized : clip.meta.size ≡ length clip.content
    pub numbered : clip.meta.seq ≡ (hub.state.inner.seq + 1) % 2 ^ 64
    pub recorded : hub'.state.disk ≡ some hub'.state.inner
    pub current : hub'.state.inner.seq ≡ clip.meta.seq
    pub announced : hub'.sent ≡ hub.sent ++ record { clip = clip; skip = none } ∷ []

  publish-IsOwn :
      (hub : Hub B) (item : Item) (now : ℕ) (saves : Bool) (clip : Clip)
      → (publish backend sha256 hub item now saves).1 ≡ ok (some clip)
      → IsOwn hub item (publish backend sha256 hub item now saves).0 clip
  unfolding publish pack broadcast next_seq
  publish-IsOwn hub item now true clip h = ground arith
  publish-IsOwn hub item now false clip h = absurd (cc)

  -- The watcher's item is dropped, or it is sent: not empty, within the limit, not suppressed.
  observed_cases {ℓ} :
      (P : Outcome B (Option Clip) → Type ℓ) (hub : Hub B) (item : Item) (now : ℕ) (saves : Bool)
      → P (hub, ok none)
      → (is_empty item.content ≡ false
          → length item.content ≤ max_clip
          → Suppress.has hub.suppress (hash_of backend sha256 item) now ≡ false
          → P (publish backend sha256 hub item now saves))
      → P (local_observed backend sha256 hub item now saves)
  unfolding local_observed
  observed_cases P hub item now saves dropped sends = elim (Bool-cases (is_empty item.content)) [
    | inl nothing ↦ rw nothing dropped
    | inr given ↦ elim (Bool-cases (ltb max_clip (length item.content))) [
      | inl big ↦ rw (given, big) dropped
      | inr fits ↦ elim (Bool-cases (Suppress.has hub.suppress (hash_of backend sha256 item) now)) [
        | inl known ↦ rw (given, fits, known) dropped
        | inr new ↦ rw (given, fits, new) (sends given (ground arith) new)
      ]
    ]
  ]

  abbrev Sends : Hub B → Item → Outcome B (Option Clip) → Type 0
  Sends hub item out =
      (clip : Clip)
      → out.1 ≡ ok (some clip)
      → IsOwn hub item out.0 clip × (length item.content ≤ max_clip)

  sent_own :
      (hub : Hub B) (item : Item) (now : ℕ) (saves : Bool)
      → Sends hub item (local_observed backend sha256 hub item now saves)
  sent_own hub item now saves =
      observed_cases (Sends hub item) hub item now saves (λ clip h. absurd (cc))
        (λ g f n clip h. (publish-IsOwn hub item now saves clip h, f))

  -- For an item that came without a hash or with the right one, where that is not empty: what the
  -- watcher sends is a clip with the item's content, its name, and its content type or the one
  -- detected where it has none; it is under the node's name and the number after the last one,
  -- which is on disk by then, and announced to every peer; and it passes a peer's verification.
  pub local_observed_sends :
      (hub : Hub B) (item : Item) (now : ℕ) (saves : Bool) (clip : Clip)
      → (local_observed backend sha256 hub item now saves).1 ≡ ok (some clip)
      → hash_of backend sha256 item ≡ hash sha256 item.content
      → is_empty (hash sha256 item.content) ≡ false
      → IsOwn hub item (local_observed backend sha256 hub item now saves).0 clip
        × (verify_clip sha256 clip ≡ ok tt)
  local_observed_sends hub item now saves clip h good given =
      let (own, fits) = sent_own hub item now saves clip h in
      (
        own,
        (verify_clip_iff sha256 clip).1 (record {
          fits = subst (λ c. length c ≤ max_clip) (sym own.content) fits;
          sized = own.sized;
          hashed = own.hashed ∙ good ∙ ap (hash sha256) (sym own.content);
          named = ap is_empty (own.hashed ∙ good) ∙ given;
        }),
      )

  publish_notes :
      (hub : Hub B) (item : Item) (now : ℕ) (saves : Bool)
      → (publish backend sha256 hub item now saves).0.suppress
        ≡ Suppress.add hub.suppress (hash_of backend sha256 item) now
  unfolding publish pack broadcast next_seq
  publish_notes hub item now true = refl
  publish_notes hub item now false = refl

  sent-noted :
      (hub : Hub B) (item : Item) (now : ℕ) (saves : Bool) (clip : Clip)
      → (local_observed backend sha256 hub item now saves).1 ≡ ok (some clip)
      → (local_observed backend sha256 hub item now saves).0.suppress
        ≡ Suppress.add hub.suppress (hash_of backend sha256 item) now
  sent-noted hub item now saves clip =
      observed_cases
        (λ out.
          out.1 ≡ ok (some clip)
          → out.0.suppress ≡ Suppress.add hub.suppress (hash_of backend sha256 item) now)
        hub item now saves (λ h. absurd (cc)) (λ g f n h. publish_notes hub item now saves)

  abbrev Noted : Suppress.Suppress → Text → ℕ → Outcome B (Option Clip) → Type 0
  Noted s h now out = (out.0.suppress ≡ s) ⊎ (out.0.suppress ≡ Suppress.add s h now)

  observed-Noted :
      (hub : Hub B) (item : Item) (now : ℕ) (saves : Bool)
      → Noted hub.suppress
          (hash_of backend sha256 item)
          now
          (local_observed backend sha256 hub item now saves)
  observed-Noted hub item now saves =
      observed_cases (Noted hub.suppress (hash_of backend sha256 item) now) hub item now saves
        (inl refl) (λ g f n. inr (publish_notes hub item now saves))

  -- A user copies one thing, whose hash is not empty, then another, and then the first again,
  -- where the table of suppressed hashes keeps at least two: when the first copy was sent, the
  -- last one is not, and changes nothing, however long the user waited.
  pub copied_again_dropped :
      (hub : Hub B) (x y : Item) (now mid later : ℕ) (s1 s2 s3 : Bool) (clip : Clip)
      → 1 < hub.suppress.max
      → is_empty (hash_of backend sha256 x) ≡ false
      → (local_observed backend sha256 hub x now s1).1 ≡ ok (some clip)
      → let hub1 = (local_observed backend sha256 hub x now s1).0 in
        let hub2 = (local_observed backend sha256 hub1 y mid s2).0 in
        local_observed backend sha256 hub2 x later s3 ≡ (hub2, ok none)
  copied_again_dropped hub x y now mid later s1 s2 s3 clip room given sent =
      suppressed_dropped backend sha256 _ x (hash_of backend sha256 x) later s3 refl
        (known (observed-Noted hub1 y mid s2))
    where
      hub1 : Hub B
      hub1 = (local_observed backend sha256 hub x now s1).0

      hub2 : Hub B
      hub2 = (local_observed backend sha256 hub1 y mid s2).0

      noted : hub1.suppress ≡ Suppress.add hub.suppress (hash_of backend sha256 x) now
      noted = sent-noted hub x now s1 clip sent

      known :
          (hub2.suppress ≡ hub1.suppress)
            ⊎ (hub2.suppress ≡ Suppress.add hub1.suppress (hash_of backend sha256 y) mid)
          → Suppress.has hub2.suppress (hash_of backend sha256 x) later ≡ true
      known (inl e) =
          subst (λ s. Suppress.has s (hash_of backend sha256 x) later ≡ true) (sym (e ∙ noted))
            (has-add hub.suppress (hash_of backend sha256 x) now later (omega arith) given)
      known (inr e) =
          subst (λ s. Suppress.has s (hash_of backend sha256 x) later ≡ true)
            (sym (e ∙ ap (λ s. Suppress.add s (hash_of backend sha256 y) mid) noted))
            (has-add-add hub.suppress (hash_of backend sha256 x) (hash_of backend sha256 y) now mid
              later room given)
