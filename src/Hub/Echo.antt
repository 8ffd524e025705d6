-- ===== src/Hub/Echo.antt =====
-- The watcher, after a clip from a peer was written to the clipboard.
use zsync.Base.{
  ltb, Bool-cases, length, is_empty, Bytes, Text, text_eq, nat_eq, ok, ℕ, ◌<◌, ◌≡◌, sym, ap, ◌∙◌,
  subst, ◌≢◌, inl, inr, Bool, true, false, none, [], arith,
}
use zsync.Protocol.{Clip, ClipAck, ProtoError, max_clip}
use zsync.Clipboard.{Item, Backend}
use zsync.Suppress.{Suppress}
use zsync.Suppress
use zsync.Suppress.Recent.{has-add, max-add}
use zsync.Hub.{Hub, Outcome, local_observed, hash_of, refusal, apply_remote}
use zsync.Hub.Apply.{apply_remote_cases, store_cases, after_offer}

module _ {B : Type 0} (backend : Backend B) (sha256 : Bytes → Bytes) where
  -- An item of a suppressed hash is dropped, and the hub stays as it is.
  pub suppressed_dropped :
      (hub : Hub B) (item : Item) (h : Text) (now : ℕ) (saves : Bool)
      → hash_of backend sha256 item ≡ h
      → Suppress.has hub.suppress h now ≡ true
      → local_observed backend sha256 hub item now saves ≡ (hub, ok none)
  unfolding local_observed
  suppressed_dropped hub item h now saves e k =
      rw (subst (λ x. Suppress.has hub.suppress x now ≡ true) (sym e) k)
        (elim (Bool-cases (is_empty item.content)) [
          | inl nothing ↦ rw nothing
          | inr given ↦ elim (Bool-cases (ltb max_clip (length item.content))) [
            | inl big ↦ rw (given, big)
            | inr fits ↦ rw (given, fits)
          ]
        ])

  abbrev Echoed : ℕ → Bool → Item → Outcome B ClipAck → Type 0
  Echoed later saves item out =
      (a : ClipAck)
      → out.1 ≡ ok a
      → a.reason ≡ []
      → is_empty a.hash ≡ false
      → hash_of backend sha256 item ≡ a.hash
      → local_observed backend sha256 out.0 item later saves ≡ (out.0, ok none)

  refusal-ne-nil : (e : ProtoError) → refusal e ≢ []
  unfolding refusal
  refusal-ne-nil e = ground arith

  -- A clip from a peer was applied and acknowledged without a reason, under a hash that is not
  -- empty, and the table of suppressed hashes keeps at least one. The watcher that then sees an
  -- item of the acknowledged hash sends nothing and changes nothing, at any later time.
  pub echo_dropped :
      (hub : Hub B) (clip : Clip) (now later : ℕ) (saves : Bool) (item : Item) (a : ClipAck)
      → 0 < hub.suppress.max
      → (apply_remote backend sha256 hub clip now).1 ≡ ok a
      → a.reason ≡ []
      → is_empty a.hash ≡ false
      → hash_of backend sha256 item ≡ a.hash
      → let hub' = (apply_remote backend sha256 hub clip now).0 in
        local_observed backend sha256 hub' item later saves ≡ (hub', ok none)
  echo_dropped hub clip now later saves item a room =
      apply_remote_cases backend sha256 (Echoed later saves item) hub clip now
        (λ e h a x r g k. absurd (refusal-ne-nil e (cc))) (λ h o a x r g k. absurd (cc))
        (λ h o f a x r g k. absurd (cc)) (λ n p a x r g k. absurd (cc))
        (λ n p.
          store_cases backend sha256 (Echoed later saves item) (after_offer hub clip) clip now
            (λ e b a x r g k. absurd (cc))
            (λ stored b a x r g k.
              let same : stored.hash ≡ a.hash = cc in
              suppressed_dropped _ item stored.hash later saves (k ∙ sym same) (
                has-add (Suppress.add hub.suppress clip.meta.hash now) stored.hash now later
                  (rw (max-add hub.suppress clip.meta.hash now) room) (ap is_empty same ∙ g))))
        a
