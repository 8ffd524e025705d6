-- ===== src/Daemon/Table/Claims.antt =====
-- At most one session has a key, and what becomes of a claim that is not given back.
use zsync.Base.{
  keep, Text, text_beq, text_beq_iff, text_eq, ◌==◌, nat_eq, ◌≡◌, refl, Bool, sym, ap, ◌∙◌, ◌≢◌,
  true, false, not, ◌&&◌, List, [], ◌∷◌, arith,
}
use zsync.Protocol.{Hello}
use zsync.Daemon.Table.{claim_live}
use zsync.Daemon.Table.Live.{
  World, LiveEvent, incoming, member, run_incoming, advance, after, advance_cases,
  unanswered_claims,
}

-- No key is there twice.
abbrev pub Once : List Text → Type 0
Once [] = Unit
Once (k ∷ ks) = (member k ks ≡ false) × Once ks

-- Every session has claimed its key, and no two have the same.
pub record IsSound (live running : List Text) : Type 0 where
  pub claimed : (k : Text) → member k running ≡ true → member k live ≡ true
  pub once : Once running

member-keep :
    (k j : Text) (ks : List Text)
    → member j (keep (λ i. not (i == k)) ks) ≡ (not (k == j) && member j ks)
member-keep k j [] = ground arith
member-keep k j (i ∷ ks) =
    ground (arith, member-keep k j ks, text_beq_iff i k, text_beq_iff i j, text_beq_iff k j)

keep-Once : (k : Text) (ks : List Text) → Once ks → Once (keep (λ i. not (i == k)) ks)
keep-Once k [] o = tt
keep-Once k (i ∷ ks) (new, o) = ground (arith, keep-Once k ks o, member-keep k i ks)

claim-IsSound :
    (k : Text) (live running : List Text)
    → member k live ≡ false
    → IsSound live running
    → IsSound (k ∷ live) (k ∷ running)
claim-IsSound k live running new s = record {
  claimed = λ j h. ground (arith, s.claimed j);
  once = (ground (arith, s.claimed k), s.once);
}

release-IsSound :
    (k : Text) (live running : List Text)
    → IsSound live running
    → IsSound (keep (λ j. not (j == k)) live) (keep (λ j. not (j == k)) running)
release-IsSound k live running s = record {
  claimed = λ j h. ground (arith, s.claimed j, member-keep k j live, member-keep k j running);
  once = keep-Once k running s.once;
}

-- The key is claimed, and by no session.
abbrev Stuck : Text → List Text → List Text → Type 0
Stuck k live running = (member k live ≡ true) × (member k running ≡ false)

differ :
    (k j : Text) (ks : List Text)
    → member k ks ≡ false
    → member j ks ≡ true
    → (text_beq k j ≡ false) × (text_beq j k ≡ false)
differ k j ks out there =
    (ground (arith, text_beq_iff k j, contra), ground (arith, text_beq_iff j k, contra))
  where
    absurd_of : false ≡ true → ⊥
    absurd_of h = ground arith

    contra : k ≢ j
    contra e = absurd (absurd_of (sym out ∙ ap (λ x. member x ks) e ∙ there))

module _ {B : Type 0} where
  advance-IsSound :
      (w : World B) (e : LiveEvent)
      → IsSound w.runtime.live w.running
      → IsSound (advance w e).runtime.live (advance w e).running
  advance-IsSound w e s =
      advance_cases IsSound w e s (λ k n. claim-IsSound k w.runtime.live w.running n s)
        (λ k n. record { claimed = λ j h. ground (arith, s.claimed j); once = s.once })
        (λ k y. release-IsSound k w.runtime.live w.running s)

  -- Where every session has claimed its key and no two have the same, as where there is none, this
  -- is so after every sequence of connections, in either direction, and ends of sessions.
  pub after-IsSound :
      (w : World B) (es : List LiveEvent)
      → IsSound w.runtime.live w.running
      → IsSound (after w es).runtime.live (after w es).running
  unfolding after
  after-IsSound w [] s = s
  after-IsSound w (e ∷ es) s = after-IsSound (advance w e) es (advance-IsSound w e s)

  advance-Stuck :
      (k : Text) (w : World B) (e : LiveEvent)
      → Stuck k w.runtime.live w.running
      → Stuck k (advance w e).runtime.live (advance w e).running
  advance-Stuck k w e (l, r) =
      advance_cases (Stuck k) w e (l, r)
        (λ j n. (ground arith, ground (arith, differ j k w.runtime.live n l)))
        (λ j n. (ground arith, r))
        (λ j y. (
          ground (arith, member-keep j k w.runtime.live, differ k j w.running r y),
          ground (arith, member-keep j k w.running),
        ))

  after-Stuck :
      (k : Text) (w : World B) (es : List LiveEvent)
      → Stuck k w.runtime.live w.running
      → Stuck k (after w es).runtime.live (after w es).running
  unfolding after
  after-Stuck k w [] s = s
  after-Stuck k w (e ∷ es) s = after-Stuck k (advance w e) es (advance-Stuck k w e s)

  stuck_incoming :
      (w : World B) (hello : Hello) (uri : Text) (answers : Bool)
      → member hello.node_id w.runtime.live ≡ true
      → advance w (incoming hello uri answers) ≡ w
  unfolding advance run_incoming claim_live
  stuck_incoming w hello uri answers live = rw live refl

  -- A node whose id is in no claim connects, and the answer to its greeting cannot be written,
  -- where every session has claimed its key. Then, whatever connections and ends of sessions
  -- follow, there is no session under the key of that id, as one that came in from the node would
  -- be, and another connection that comes in from the node changes nothing.
  pub unanswered_never_connects :
      (w : World B) (hello again : Hello) (uri uri' : Text) (answers : Bool) (es : List LiveEvent)
      → IsSound w.runtime.live w.running
      → member hello.node_id w.runtime.live ≡ false
      → again.node_id ≡ hello.node_id
      → let later = after (advance w (incoming hello uri false)) es in
        (member hello.node_id later.running ≡ false)
        × (advance later (incoming again uri' answers) ≡ later)
  unanswered_never_connects w hello again uri uri' answers es s new same =
      let (live, out) = after-Stuck hello.node_id (advance w (incoming hello uri false)) es stuck in
      (
        out,
        stuck_incoming (after (advance w (incoming hello uri false)) es) again uri' answers (
            ap (λ k. member k (after (advance w (incoming hello uri false)) es).runtime.live) same
            ∙ live),
      )
    where
      stuck :
          Stuck hello.node_id
            (advance w (incoming hello uri false)).runtime.live
            (advance w (incoming hello uri false)).running
      stuck =
          let (l, r) = unanswered_claims w hello uri new in
          (
            ap (member hello.node_id) l ∙ ground (arith, text_beq_iff hello.node_id hello.node_id),
            ap (member hello.node_id) r ∙ ground (arith, s.claimed hello.node_id),
          )
