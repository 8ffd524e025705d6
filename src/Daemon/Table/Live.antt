-- ===== src/Daemon/Table/Live.antt =====
-- The set of live sessions (daemon.rs): `run_incoming`, and `run_tcp_dial` and `run_relay_dial` as
-- far as they claim and release a key. `running` has the keys of the sessions in their loops.
use zsync.Base.{
  if◌then◌else◌, Bool-cases, Option-cases, any, keep, Text, codes, text_eq, ◌==◌, nat_eq, ◌≡◌, refl,
  sym, ◌∙◌, subst, inl, inr, Bool, true, false, not, none, some, List, [], ◌∷◌,
}
use zsync.Base.Map.{lookup, insert}
use zsync.Protocol.{Hello}
use zsync.Daemon.Table.{Runtime, claim_live, release_live, remember_incoming}

pub record World (B : Type 0) : Type 0 where
  pub runtime : Runtime B
  pub running : List Text

-- A connection that came in with a greeting, and whether the answer to it could be written; a
-- connection that was dialled; the end of a session.
pub data LiveEvent : Type 0 where
  incoming : Hello → Text → Bool → LiveEvent
  dialled ended : Text → LiveEvent

abbrev pub member : Text → List Text → Bool
member k ks = any (λ j. j == k) ks

module _ {B : Type 0} where
  -- The status of the peer once it is greeted.
  unfoldable pub greeted : Runtime B → Text → Hello → Runtime B
  greeted rt uri hello = elim (lookup uri rt.peers) [
    | none ↦ rt
    | some p ↦ record rt {
      peers =
          insert uri
            (record p {
              status = record (p.status) {
                state = codes "connected";
                remote_node = some hello.node_id;
                remote_host = some hello.hostname;
                last_error = none;
              };
            })
            rt.peers;
    }
  ]

  -- The `?` on the write of the answer returns with the key still claimed.
  unfoldable pub run_incoming : World B → Hello → Text → Bool → World B
  unfolding greeted
  run_incoming w hello uri answers =
      let (rt, claimed) = claim_live w.runtime hello.node_id in
      let known = remember_incoming rt uri hello in
      if not claimed
      then w
      else if answers
      then record { runtime = greeted known uri hello; running = hello.node_id ∷ w.running }
      else record w { runtime = known }

  unfoldable pub run_dial : World B → Text → World B
  run_dial w live_key =
      let (rt, claimed) = claim_live w.runtime live_key in
      if claimed then record { runtime = rt; running = live_key ∷ w.running } else w

  unfoldable pub end_session : World B → Text → World B
  end_session w key =
      if member key w.running
      then record {
        runtime = release_live w.runtime key;
        running = keep (λ k. not (k == key)) w.running;
      }
      else w

  unfoldable pub advance : World B → LiveEvent → World B
  unfolding run_incoming run_dial end_session
  advance w (incoming hello uri answers) = run_incoming w hello uri answers
  advance w (dialled key) = run_dial w key
  advance w (ended key) = end_session w key

  unfoldable pub after : World B → List LiveEvent → World B
  after w [] = w
  after w (e ∷ es) = after (advance w e) es

  -- The table after the claim of an incoming connection.
  abbrev remembered : World B → Hello → Text → Runtime B
  remembered w hello uri =
      remember_incoming (record (w.runtime) { live = hello.node_id ∷ w.runtime.live }) uri hello

  remember_incoming-live :
      (rt : Runtime B) (uri : Text) (hello : Hello)
      → (remember_incoming rt uri hello).live ≡ rt.live
  unfolding remember_incoming
  remember_incoming-live rt uri hello = elim (Option-cases (lookup uri rt.peers)) [
    | inl missing ↦ rw (missing, remember_incoming) refl
    | inr (p, there) ↦ rw (there, remember_incoming) refl
  ]

  greeted-live :
      (rt : Runtime B) (uri : Text) (hello : Hello) → (greeted rt uri hello).live ≡ rt.live
  unfolding greeted
  greeted-live rt uri hello = elim (Option-cases (lookup uri rt.peers)) [
    | inl missing ↦ rw (missing, greeted) refl
    | inr (p, there) ↦ rw (there, greeted) refl
  ]

  -- What an event does to the two lists.
  pub advance_cases {ℓ} :
      (P : List Text → List Text → Type ℓ) (w : World B) (e : LiveEvent)
      → P w.runtime.live w.running
      → ((k : Text) → member k w.runtime.live ≡ false → P (k ∷ w.runtime.live) (k ∷ w.running))
      → ((k : Text) → member k w.runtime.live ≡ false → P (k ∷ w.runtime.live) w.running)
      → ((k : Text)
          → member k w.running ≡ true
          → P (keep (λ j. not (j == k)) w.runtime.live) (keep (λ j. not (j == k)) w.running))
      → P (advance w e).runtime.live (advance w e).running
  unfolding advance run_incoming run_dial end_session claim_live release_live
  advance_cases P w (dialled k) same both claim release =
      elim (Bool-cases (member k w.runtime.live)) [ inl y ↦ rw y same | inr n ↦ rw n (both k n) ]
  advance_cases P w (ended k) same both claim release = elim (Bool-cases (member k w.running)) [
    | inl y ↦ rw y (release k y)
    | inr n ↦ rw n same
  ]
  advance_cases P w (incoming hello uri true) same both claim release =
      elim (Bool-cases (member hello.node_id w.runtime.live)) [
        | inl y ↦ rw y same
        | inr n ↦ rw n (
            subst (λ l. P l (hello.node_id ∷ w.running))
              (sym (
                greeted-live (remembered w hello uri) uri hello
                ∙ remember_incoming-live _ uri hello))
              (both hello.node_id n))
      ]
  advance_cases P w (incoming hello uri false) same both claim release =
      elim (Bool-cases (member hello.node_id w.runtime.live)) [
        | inl y ↦ rw y same
        | inr n ↦ rw n (
            subst (λ l. P l w.running) (sym (remember_incoming-live _ uri hello))
              (claim hello.node_id n))
      ]

  pub unanswered_claims :
      (w : World B) (hello : Hello) (uri : Text)
      → member hello.node_id w.runtime.live ≡ false
      → ((advance w (incoming hello uri false)).runtime.live ≡ hello.node_id ∷ w.runtime.live)
        × ((advance w (incoming hello uri false)).running ≡ w.running)
  unfolding advance run_incoming claim_live
  unanswered_claims w hello uri new = (rw new (remember_incoming-live _ uri hello), rw new refl)

  pub answered_claims :
      (w : World B) (hello : Hello) (uri : Text)
      → member hello.node_id w.runtime.live ≡ false
      → ((run_incoming w hello uri true).runtime.live ≡ hello.node_id ∷ w.runtime.live)
        × ((run_incoming w hello uri true).running ≡ hello.node_id ∷ w.running)
  unfolding run_incoming claim_live
  answered_claims w hello uri new = (
    rw new (greeted-live (remembered w hello uri) uri hello ∙ remember_incoming-live _ uri hello),
    rw new refl,
  )
