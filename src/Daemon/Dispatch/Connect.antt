-- ===== src/Daemon/Dispatch/Connect.antt =====
-- What a `connect` leaves.
use zsync.Base.{
  eqb_iff, Bool-cases, Option-cases, any, any-append, Bytes, Text, codes, text_eq, ◌==◌, nat_eq, ok,
  ℕ, ◌≡◌, refl, ap, ap₂, ◌∙◌, inl, inr, Bool, true, Option, none, some, List, [], ◌∷◌, ◌++◌, arith,
}
use zsync.Base.Map.{lookup, eq_refl, lookup-insert}
use zsync.Clipboard.{Backend}
use zsync.State.{upsert_peer}
use zsync.State.Peers.{saved_as, Unique, upsert_peer_lem}
use zsync.Net.{PeerTarget, parse_peer}
use zsync.Daemon.Table.{Runtime, PeerEntry, new_status, take_out, launch, spawn_target, spawn_peer}
use zsync.Daemon.Dispatch.{Request, connect, dispatch, done, plain}

-- The request of `zsync connect uri`.
abbrev pub connection : Text → Request
connection uri = record { action = codes "connect"; uri = some uri; mime = none }

-- The session of an earlier entry was told to stop.
abbrev pub is_stopped : Option PeerEntry → List ℕ → Bool
is_stopped none signalled = true
is_stopped (some p) signalled = any (λ c. c == p.stop) signalled

module _ {B : Type 0} where
  -- What a forced dial leaves: a new entry, a task for it, and the task of the old one stopped.
  record Dialled (rt : Runtime B) (target : PeerTarget) (old : Option PeerEntry) (out : Runtime B)
      : Type 0 where
    entry :
        lookup target.uri out.peers
        ≡ some (record { status = new_status target.uri (codes "connecting"); stop = rt.channels })
    task : out.spawned ≡ rt.spawned ++ (target, rt.channels) ∷ []
    replaced : is_stopped old out.signalled ≡ true
    kept : out.hub ≡ rt.hub

  launched :
      (rt : Runtime B) (target : PeerTarget) (old : Option PeerEntry) (now : Runtime B)
      → now.channels ≡ rt.channels
      → now.spawned ≡ rt.spawned
      → now.hub ≡ rt.hub
      → is_stopped old now.signalled ≡ true
      → Dialled rt target old (launch now target)
  unfolding launch
  launched rt target old now c s h stop = record {
    entry =
        lookup-insert target.uri target.uri _ now.peers
        ∙ rw (eq_refl target.uri) (
            ap
              (λ n. some (record { status = new_status target.uri (codes "connecting"); stop = n }))
              c);
    task = ap₂ (λ xs n. xs ++ (target, n) ∷ []) s c;
    replaced = stop;
    kept = h;
  }

  spawn_target-Dialled :
      (is_ipv6 : Text → Bool) (b64_decode : Text → Option Bytes)
      (resolve : PeerTarget → Option PeerTarget) (rt : Runtime B) (target : PeerTarget)
      → Dialled rt target
          (lookup target.uri rt.peers)
          (spawn_target is_ipv6 b64_decode resolve rt target true)
  unfolding spawn_target
  spawn_target-Dialled is_ipv6 b64_decode resolve rt target =
      elim (Option-cases (lookup target.uri rt.peers)) [
        | inl missing ↦ rw (missing, spawn_target) (launched rt target none rt refl refl refl refl)
        | inr (p, there) ↦ elim (Bool-cases (any (λ c. c == p.stop) rt.signalled)) [
          | inl old ↦
              rw (there, spawn_target, old) (launched rt target (some p) rt refl refl refl old)
          | inr live ↦
              rw (there, spawn_target, live)
                (launched rt target (some p) (take_out rt target.uri p) refl refl refl (
                  any-append (λ c. c == p.stop) rt.signalled (p.stop ∷ [])
                  ∙ ground (arith, eqb_iff p.stop p.stop)))
        ]
      ]

module _ {B : Type 0} (backend : Backend B) (sha256 : Bytes → Bytes) (is_ipv6 : Text → Bool)
    (b64_decode : Text → Option Bytes) (resolve : PeerTarget → Option PeerTarget) where
  abbrev saved_in : Runtime B → Text → Runtime B
  saved_in rt uri = record rt {
    hub = record (rt.hub) { state = (upsert_peer rt.hub.state uri true true).0 };
  }

  dialled :
      (rt : Runtime B) (uri : Text) (parsed target again next : PeerTarget)
      → (upsert_peer rt.hub.state target.uri true true).1 ≡ true
      → parse_peer is_ipv6 b64_decode uri ≡ ok parsed
      → resolve parsed ≡ some target
      → parse_peer is_ipv6 b64_decode target.uri ≡ ok again
      → resolve again ≡ some next
      → dispatch backend sha256 is_ipv6 b64_decode resolve rt (connection uri) [] [] 0 0 true
        ≡ done (spawn_target is_ipv6 b64_decode resolve (saved_in rt target.uri) next true)
  unfolding dispatch connect spawn_peer
  dialled rt uri parsed target again next saved p r p' r' =
      rw (p, dispatch, connect, r, saved, spawn_peer, p', r') refl

  -- `zsync connect uri`, with an address that has a target, whose own address has a target as
  -- well, on a file that saves no address twice and a disk that takes the write. The answer is
  -- positive, and the address of the target is saved and enabled. A task dials the second target.
  -- The table has a new entry for it, with a new stop channel, and the session of an entry that it
  -- had before for that address is told to stop.
  pub connect_dials :
      (rt : Runtime B) (uri : Text) (parsed target again next : PeerTarget)
      → Unique rt.hub.state.inner.peers
      → parse_peer is_ipv6 b64_decode uri ≡ ok parsed
      → resolve parsed ≡ some target
      → parse_peer is_ipv6 b64_decode target.uri ≡ ok again
      → resolve again ≡ some next
      → let out =
          dispatch backend sha256 is_ipv6 b64_decode resolve rt (connection uri) [] [] 0 0 true in
        (out.1 ≡ plain true none)
        × (saved_as target.uri out.0.hub.state.inner.peers ≡ some true)
        × (lookup next.uri out.0.peers
            ≡ some
                (record { status = new_status next.uri (codes "connecting"); stop = rt.channels }))
        × (out.0.spawned ≡ rt.spawned ++ (next, rt.channels) ∷ [])
        × (is_stopped (lookup next.uri rt.peers) out.0.signalled ≡ true)
  connect_dials rt uri parsed target again next u p r p' r' =
      let d = spawn_target-Dialled is_ipv6 b64_decode resolve (saved_in rt target.uri) next in
      (
        ap (λ o. o.1) same,
        ap (λ o. saved_as target.uri o.0.hub.state.inner.peers) same
            ∙ ap (λ h. saved_as target.uri h.state.inner.peers) d.kept
            ∙ (upsert_peer_lem rt.hub.state target.uri target.uri true true u).0
            ∙ rw (eq_refl target.uri) refl,
        ap (λ o. lookup next.uri o.0.peers) same ∙ d.entry,
        ap (λ o. o.0.spawned) same ∙ d.task,
        ap (λ o. is_stopped (lookup next.uri rt.peers) o.0.signalled) same ∙ d.replaced,
      )
    where
      same :
          dispatch backend sha256 is_ipv6 b64_decode resolve rt (connection uri) [] [] 0 0 true
          ≡ done (spawn_target is_ipv6 b64_decode resolve (saved_in rt target.uri) next true)
      same =
          dialled rt uri parsed target again next
            (upsert_peer_lem rt.hub.state target.uri target.uri true true u).3 p r p' r'
