-- ===== src/Daemon/Starting.antt =====
-- The saved peers that `run_agent` of src/daemon.rs dials when the daemon starts. `saves` says
-- whether the disk takes a write.
pub mod Dials
mod Examples
use zsync.Base.{
  ltb, leb, eqb, if◌then◌else◌, ltb→lt, lt→ltb, le→ltb, leb→le, eqb_iff, Bool-cases, Option-cases,
  length, get_or, take, drop, replicate, is_empty, any, all, keep, All, length-append, length-drop,
  length-take, take-append, drop-append, take-append-drop, take-length, any-append, length-keep-le,
  Bytes, Text, codes, text_beq, text_beq_iff, text_eq, starts_with, utf8_width, text_len, ◌>>=◌,
  ◌>>◌, fail_if, or_fail, Result-cases, Result, Eq, ◌==◌, nat_eq, ok, err, ℕ, zero, suc, ◌+◌, ◌-◌,
  ◌*◌, ◌/◌, ◌%◌, ◌^◌, ◌≤◌, ◌<◌, min, max, ◌≡◌, refl, sym, ap, ap₂, ◌∙◌, subst, ◌≢◌, ◌↔◌, ◌⊎◌, inl,
  inr, Bool, true, false, not, ◌&&◌, ◌||◌, Option, none, some, List, [], ◌∷◌, ◌++◌, map,
  append_assoc, append-nil, arith,
}
use zsync.Base.Map.{Map, lookup}
use zsync.Protocol.{Json}
use zsync.State.{PeerState, StateFile, upsert_peer, remove_peer}
use zsync.Group.Keys.{GroupFile, KeyDir, Base64}
use zsync.Net.{PeerTarget, parse_peer}
use zsync.Net.Keys.{resolve_relay}
use zsync.Hub.{Hub}
use zsync.Daemon.Table.{Runtime, spawn_peer}

-- The runtime and the directory of the group keys.
abbrev pub Starting : Type 0 → Type 0
Starting B = Runtime B × KeyDir

module _ (is_ipv6 : Text → Bool) (b64 : Base64) (codec : Json GroupFile) (saves : Bool) where
  -- `resolve_relay` as `spawn_peer` uses it, which resolves an address again.
  unfoldable pub resolved : KeyDir → PeerTarget → Option PeerTarget
  resolved dir target = elim (resolve_relay b64 codec dir target saves).1 [
    | err e ↦ none
    | ok t ↦ some t
  ]

  -- An entry under another spelling of its address is replaced by one under the canonical one.
  unfoldable pub respelled : StateFile → Text → Text → StateFile
  respelled state uri canonical =
      if canonical == uri
      then state
      else (upsert_peer (remove_peer state (some uri) saves).0 canonical true saves).0

  unfoldable pub start_target : {B : Type 0} → Starting B → Text → KeyDir → PeerTarget → Starting B
  unfolding resolved respelled
  start_target (rt, _) uri dir target =
      let state = respelled rt.hub.state uri target.uri in
      (
        spawn_peer is_ipv6 b64.decode (resolved dir)
            (record rt { hub = record (rt.hub) { state = state } }) target.uri false,
        dir,
      )

  -- An address that does not parse, and a key that is not found, are passed over.
  unfoldable pub start_peer : {B : Type 0} → Starting B → PeerState → Starting B
  unfolding start_target
  start_peer (rt, dir) peer =
      if not peer.enabled then (rt, dir) else (elim (parse_peer is_ipv6 b64.decode peer.uri) [
        | err e ↦ (rt, dir)
        | ok parsed ↦
            let (dir', result) = resolve_relay b64 codec dir parsed saves in
            elim result [
              | err e ↦ (rt, dir')
              | ok target ↦ start_target (rt, dir') peer.uri dir' target
            ]
      ])

  unfoldable pub start_each : {B : Type 0} → Starting B → List PeerState → Starting B
  start_each w [] = w
  start_each w (p ∷ ps) = start_each (start_peer w p) ps

  -- The loop over the peers that the state file has when the daemon starts.
  unfoldable pub start_peers : {B : Type 0} → Starting B → Starting B
  start_peers (rt, dir) = start_each (rt, dir) rt.hub.state.inner.peers
