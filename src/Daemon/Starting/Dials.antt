-- ===== src/Daemon/Starting/Dials.antt =====
-- Which saved peers have a task that dials them once the daemon has started.
use zsync.Base.{
  Bool-cases, Option-cases, any, any-append, Bytes, Text, text_eq, Result-cases, ◌==◌, nat_eq, ok,
  ◌≡◌, refl, ap, ◌∙◌, ◌⊎◌, inl, inr, Bool, true, false, ◌||◌, Option, none, some, List, [], ◌∷◌,
  ◌++◌, arith,
}
use zsync.Base.Map.{lookup, lookup-insert, eq_refl}
use zsync.Protocol.{Json}
use zsync.State.{PeerState}
use zsync.Group.Keys.{GroupFile, KeyDir, Base64}
use zsync.Net.{PeerTarget, parse_peer}
use zsync.Net.Keys.{resolve_relay}
use zsync.Daemon.Table.{Runtime, PeerEntry, launch, spawn_target, spawn_peer}
use zsync.Daemon.Starting.{
  Starting, resolved, respelled, start_target, start_peer, start_each, start_peers,
}

module _ {B : Type 0} where
  abbrev pub is_dialled : Text → Runtime B → Bool
  is_dialled uri rt = any (λ s. s.0.uri == uri) rt.spawned

  -- Every peer in the table has a task.
  abbrev pub AreDialled : Runtime B → Type 0
  AreDialled rt = (k : Text) → (lookup k rt.peers ≡ none) ⊎ (is_dialled k rt ≡ true)

  -- What a step of the start keeps.
  record Goes (rt rt' : Runtime B) : Type 0 where
    all_dialled : AreDialled rt → AreDialled rt'
    keeps : (k : Text) → is_dialled k rt ≡ true → is_dialled k rt' ≡ true

  Goes-refl : (rt : Runtime B) → Goes rt rt
  Goes-refl rt = record { all_dialled = λ d. d; keeps = λ k h. h }

  Goes-trans : (r s t : Runtime B) → Goes r s → Goes s t → Goes r t
  Goes-trans r s t f g = record {
    all_dialled = λ d. g.all_dialled (f.all_dialled d);
    keeps = λ k h. g.keeps k (f.keeps k h);
  }

  launch-spawned :
      (rt : Runtime B) (t : PeerTarget) (k : Text)
      → is_dialled k (launch rt t) ≡ (is_dialled k rt || (t.uri == k))
  unfolding launch
  launch-spawned rt t k =
      any-append (λ s. s.0.uri == k) rt.spawned ((t, rt.channels) ∷ []) ∙ ground arith

  launch-AreDialled : (rt : Runtime B) (t : PeerTarget) → AreDialled rt → AreDialled (launch rt t)
  unfolding launch
  launch-AreDialled rt t d k = elim (Bool-cases (t.uri == k)) [
    | inl same ↦ inr (launch-spawned rt t k ∙ ground (arith, same))
    | inr other ↦ elim (d k) [
      | inl missing ↦ inl (lookup-insert t.uri k _ rt.peers ∙ rw other missing)
      | inr there ↦ inr (launch-spawned rt t k ∙ ground (arith, there))
    ]
  ]

  launch-Goes : (rt : Runtime B) (t : PeerTarget) → Goes rt (launch rt t)
  launch-Goes rt t = record {
    all_dialled = launch-AreDialled rt t;
    keeps = λ k h. launch-spawned rt t k ∙ ground (arith, h);
  }

  launch_dials : (rt : Runtime B) (t : PeerTarget) → is_dialled t.uri (launch rt t) ≡ true
  launch_dials rt t = launch-spawned rt t t.uri ∙ ground (arith, eq_refl t.uri)

module _ {B : Type 0} (is_ipv6 : Text → Bool) (b64_decode : Text → Option Bytes)
    (resolve : PeerTarget → Option PeerTarget) (rt : Runtime B) where
  spawn_target-Goes :
      (t : PeerTarget)
      → Goes rt (spawn_target is_ipv6 b64_decode resolve rt t false)
        × (AreDialled rt
            → is_dialled t.uri (spawn_target is_ipv6 b64_decode resolve rt t false) ≡ true)
  unfolding spawn_target
  spawn_target-Goes t = elim (Option-cases (lookup t.uri rt.peers)) [
    | inl missing ↦ rw (missing, spawn_target) (launch-Goes rt t, λ d. launch_dials rt t)
    | inr (p, there) ↦ elim (Bool-cases (any (λ c. c == p.stop) rt.signalled)) [
      | inl stopped ↦ rw (there, spawn_target, stopped) (launch-Goes rt t, λ d. launch_dials rt t)
      | inr runs ↦ rw (there, spawn_target, runs) (Goes-refl rt, λ d. dialled p there (d t.uri))
    ]
  ]
    where
      dialled :
          (p : PeerEntry)
          → lookup t.uri rt.peers ≡ some p
          → (lookup t.uri rt.peers ≡ none) ⊎ (is_dialled t.uri rt ≡ true)
          → is_dialled t.uri rt ≡ true
      dialled p there (inl missing) = absurd (cc)
      dialled p there (inr h) = h

  spawn_peer-Goes : (uri : Text) → Goes rt (spawn_peer is_ipv6 b64_decode resolve rt uri false)
  unfolding spawn_peer
  spawn_peer-Goes uri = elim (Result-cases (parse_peer is_ipv6 b64_decode uri)) [
    | inl (e, bad) ↦ rw (bad, spawn_peer) (Goes-refl rt)
    | inr (t, good) ↦ elim (Option-cases (resolve t)) [
      | inl lost ↦ rw (good, spawn_peer, lost) (Goes-refl rt)
      | inr (target, found) ↦ rw (good, spawn_peer, found) (spawn_target-Goes target).0
    ]
  ]

  spawn_peer_dials :
      (uri : Text) (t : PeerTarget)
      → parse_peer is_ipv6 b64_decode uri ≡ ok t
      → resolve t ≡ some t
      → AreDialled rt
      → is_dialled t.uri (spawn_peer is_ipv6 b64_decode resolve rt uri false) ≡ true
  unfolding spawn_peer
  spawn_peer_dials uri t good found d = rw (good, spawn_peer, found) ((spawn_target-Goes t).1 d)

resolve_relay-plain :
    (b64 : Base64) (codec : Json GroupFile) (saves : Bool) (dir : KeyDir) (t : PeerTarget)
    → t.relay ≡ none
    → resolve_relay b64 codec dir t saves ≡ (dir, ok t)
unfolding resolve_relay
resolve_relay-plain b64 codec saves dir t plain = simp (resolve_relay, plain)

module _ {B : Type 0} (is_ipv6 : Text → Bool) (b64 : Base64) (codec : Json GroupFile)
    (saves : Bool) where
  start_target-Goes :
      (w : Starting B) (uri : Text) (dir : KeyDir) (t : PeerTarget)
      → Goes w.0 (start_target is_ipv6 b64 codec saves w uri dir t).0
  unfolding start_target
  start_target-Goes (rt, _) uri dir t =
      Goes-trans rt _ _ (record { all_dialled = λ d. d; keeps = λ k h. h })
        (spawn_peer-Goes is_ipv6 b64.decode (resolved is_ipv6 b64 codec saves dir)
          (record rt {
            hub = record (rt.hub) {
              state = respelled is_ipv6 b64 codec saves rt.hub.state uri t.uri;
            };
          })
          t.uri)

  start_peer-Goes :
      (w : Starting B) (p : PeerState) → Goes w.0 (start_peer is_ipv6 b64 codec saves w p).0
  unfolding start_peer start_target
  start_peer-Goes (rt, dir) p = elim (Bool-cases p.enabled) [
    | inr off ↦ rw (off, start_peer) (Goes-refl rt)
    | inl on ↦ elim (Result-cases (parse_peer is_ipv6 b64.decode p.uri)) [
      | inl (e, bad) ↦ rw (on, bad, start_peer) (Goes-refl rt)
      | inr (t, good) ↦ elim (Result-cases (resolve_relay b64 codec dir t saves).1) [
        | inl (e, lost) ↦ rw (on, good, start_peer, lost) (Goes-refl rt)
        | inr (target, found) ↦
            rw (on, good, start_peer, found)
              (start_target-Goes (rt, (resolve_relay b64 codec dir t saves).0) p.uri
                (resolve_relay b64 codec dir t saves).0 target)
      ]
    ]
  ]

  start_each-Goes :
      (w : Starting B) (ps : List PeerState) → Goes w.0 (start_each is_ipv6 b64 codec saves w ps).0
  unfolding start_each
  start_each-Goes w [] = Goes-refl w.0
  start_each-Goes w (p ∷ ps) =
      Goes-trans _ _ _ (start_peer-Goes w p)
        (start_each-Goes (start_peer is_ipv6 b64 codec saves w p) ps)

  -- An enabled peer with an address that needs no key has a task once its turn is over.
  start_peer_dials :
      (rt : Runtime B) (dir : KeyDir) (p : PeerState) (t : PeerTarget)
      → p.enabled ≡ true
      → parse_peer is_ipv6 b64.decode p.uri ≡ ok t
      → t.relay ≡ none
      → parse_peer is_ipv6 b64.decode t.uri ≡ ok t
      → AreDialled rt
      → is_dialled t.uri (start_peer is_ipv6 b64 codec saves (rt, dir) p).0 ≡ true
  unfolding start_peer start_target
  start_peer_dials rt dir p t on good plain again d =
      rw
        (
          on,
          good,
          start_peer,
          resolve_relay-plain b64 codec saves dir t plain,
          ap (λ x. x.0) (resolve_relay-plain b64 codec saves dir t plain),
        )
        (spawn_peer_dials is_ipv6 b64.decode (resolved is_ipv6 b64 codec saves dir)
          (record rt {
            hub = record (rt.hub) {
              state = respelled is_ipv6 b64 codec saves rt.hub.state p.uri t.uri;
            };
          })
          t.uri t again resolves d)
    where
      resolves : resolved is_ipv6 b64 codec saves dir t ≡ some t
      resolves = rw (resolved, resolve_relay-plain b64 codec saves dir t plain) refl

  start_each-append :
      (w : Starting B) (ps qs : List PeerState)
      → start_each is_ipv6 b64 codec saves w (ps ++ qs)
        ≡ start_each is_ipv6 b64 codec saves (start_each is_ipv6 b64 codec saves w ps) qs
  unfolding start_each
  start_each-append w [] qs = refl
  start_each-append w (p ∷ ps) qs = start_each-append (start_peer is_ipv6 b64 codec saves w p) ps qs

  -- Every peer of the table has a task when the saved ones are started, as none is there yet. Then
  -- wherever an enabled peer stands among the saved ones, and whatever becomes of the others, it
  -- has a task that dials it once the daemon has started, if its address parses, needs no key of a
  -- group and has a canonical spelling that parses to the same target.
  pub saved_peer_dialled :
      (rt : Runtime B) (dir : KeyDir) (before after : List PeerState) (p : PeerState)
      (t : PeerTarget)
      → rt.hub.state.inner.peers ≡ before ++ p ∷ after
      → AreDialled rt
      → p.enabled ≡ true
      → parse_peer is_ipv6 b64.decode p.uri ≡ ok t
      → t.relay ≡ none
      → parse_peer is_ipv6 b64.decode t.uri ≡ ok t
      → is_dialled t.uri (start_peers is_ipv6 b64 codec saves (rt, dir)).0 ≡ true
  unfolding start_peers start_each
  saved_peer_dialled rt dir before after p t saved d on good plain again =
      ap (λ ps. is_dialled t.uri (start_each is_ipv6 b64 codec saves (rt, dir) ps).0) saved
      ∙ ap (λ v. is_dialled t.uri v.0) (start_each-append (rt, dir) before (p ∷ after))
      ∙ (start_each-Goes (start_peer is_ipv6 b64 codec saves w p) after).keeps t.uri (
          start_peer_dials w.0 w.1 p t on good plain again
            ((start_each-Goes (rt, dir) before).all_dialled d))
    where
      w : Starting B
      w = start_each is_ipv6 b64 codec saves (rt, dir) before
