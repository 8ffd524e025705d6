-- ===== src/Daemon/Table.antt =====
-- The table of peers and the set of live sessions of src/daemon.rs. The value of a stop channel is
-- whether its number is among those that were sent `true`; `resolve` is `net::resolve_relay`,
-- which reads the key of a group from a file.
pub mod Stops
pub mod Live
pub mod Claims
use zsync.Base.{
  ltb, leb, eqb, if◌then◌else◌, ltb→lt, lt→ltb, le→ltb, leb→le, eqb_iff, Bool-cases, Option-cases,
  length, get_or, take, drop, replicate, is_empty, any, all, keep, All, length-append, length-drop,
  length-take, take-append, drop-append, take-append-drop, take-length, any-append, length-keep-le,
  Bytes, Text, codes, text_beq, text_beq_iff, text_eq, starts_with, utf8_width, text_len, ◌>>=◌,
  ◌>>◌, fail_if, or_fail, Result-cases, Result, Eq, ◌==◌, nat_eq, ok, err, ℕ, zero, suc, ◌+◌, ◌-◌,
  ◌*◌, ◌/◌, ◌%◌, ◌^◌, ◌≤◌, ◌<◌, min, max, ◌≡◌, refl, sym, ap, ap₂, ◌∙◌, subst, ◌≢◌, ◌↔◌, ◌⊎◌, inl,
  inr, Bool, true, false, not, ◌&&◌, ◌||◌, Option, none, some, List, [], ◌∷◌, ◌++◌, map,
  append_assoc, append-nil, arith,
}
use zsync.Base.Map.{
  Map, lookup, insert, remove, retain, eq_refl, lookup-insert, lookup-remove, Distinct,
}
use zsync.Protocol.{Hello}
use zsync.Net.{PeerTarget, parse_peer, display_uri}
use zsync.Hub.{Hub}

pub record PeerStatus : Type 0 where
  pub uri : Text
  pub state : Text
  pub remote_node : Option Text
  pub remote_host : Option Text
  pub last_sync : Option Text
  pub last_error : Option Text

pub record PeerEntry : Type 0 where
  pub status : PeerStatus
  pub stop : ℕ

-- `channels` numbers the next stop channel, `signalled` are those that were sent `true`, and
-- `spawned` the tasks that dial a peer, each with its stop channel.
pub record Runtime (B : Type 0) : Type 0 where
  pub hub : Hub B
  pub peers : Map Text PeerEntry
  pub live : List Text
  pub port : ℕ
  pub channels : ℕ
  pub signalled : List ℕ
  pub spawned : List (PeerTarget × ℕ)

abbrev pub new_status : Text → Text → PeerStatus
new_status uri state = record {
  uri = uri;
  state = state;
  remote_node = none;
  remote_host = none;
  last_sync = none;
  last_error = none;
}

module _ {B : Type 0} where
  -- Whether the key was not in the set.
  unfoldable pub claim_live : Runtime B → Text → Runtime B × Bool
  claim_live rt remote =
      if any (λ k. k == remote) rt.live
      then (rt, false)
      else (record rt { live = remote ∷ rt.live }, true)

  unfoldable pub release_live : Runtime B → Text → Runtime B
  release_live rt remote = record rt { live = keep (λ k. not (k == remote)) rt.live }

  abbrev pub new_entry : Runtime B → PeerStatus → Runtime B
  new_entry rt status = record rt {
    peers = insert status.uri (record { status = status; stop = rt.channels }) rt.peers;
    channels = rt.channels + 1;
  }

  unfoldable pub remember_incoming : Runtime B → Text → Hello → Runtime B
  remember_incoming rt uri hello = elim (lookup uri rt.peers) [
    | some existing ↦ rt
    | none ↦ new_entry rt (record (new_status uri (codes "connected")) {
      remote_node = some hello.node_id;
      remote_host = some hello.hostname;
    })
  ]

  -- The end of `spawn_peer`: a new entry, and a task for it.
  unfoldable pub launch : Runtime B → PeerTarget → Runtime B
  launch rt target = record (new_entry rt (new_status target.uri (codes "connecting"))) {
    spawned = rt.spawned ++ (target, rt.channels) ∷ [];
  }

  -- The entry of this key is taken out, and its channel is sent `true`.
  abbrev pub take_out : Runtime B → Text → PeerEntry → Runtime B
  take_out rt key p = record rt {
    peers = remove key rt.peers;
    signalled = rt.signalled ++ p.stop ∷ [];
  }

module _ (is_ipv6 : Text → Bool) (b64_decode : Text → Option Bytes) where
  -- The key of an address in the table.
  unfoldable pub key_of : Text → Text
  key_of uri = elim (parse_peer is_ipv6 b64_decode uri) [
    | err e ↦ display_uri is_ipv6 b64_decode uri
    | ok t ↦ t.uri
  ]

module _ (is_ipv6 : Text → Bool) (b64_decode : Text → Option Bytes) {B : Type 0} where
  module _ (resolve : PeerTarget → Option PeerTarget) where
    unfoldable pub spawn_target : Runtime B → PeerTarget → Bool → Runtime B
    spawn_target rt target force_dial = elim (lookup target.uri rt.peers) [
      | none ↦ launch rt target
      | some existing ↦
          if any (λ c. c == existing.stop) rt.signalled
          then launch rt target
          else if force_dial
          then launch (take_out rt target.uri existing) target
          else rt
    ]

    unfoldable pub spawn_peer : Runtime B → Text → Bool → Runtime B
    spawn_peer rt uri force_dial = elim (parse_peer is_ipv6 b64_decode uri) [
      | err e ↦ rt
      | ok parsed ↦ elim (resolve parsed) [
        | none ↦ rt
        | some target ↦ spawn_target rt target force_dial
      ]
    ]

  unfoldable pub stop_peer : Runtime B → Text → Runtime B
  stop_peer rt uri = elim (lookup (key_of is_ipv6 b64_decode uri) rt.peers) [
    | none ↦ rt
    | some p ↦ take_out rt (key_of is_ipv6 b64_decode uri) p
  ]

  unfoldable pub stop_peers : Runtime B → List Text → Runtime B
  stop_peers rt [] = rt
  stop_peers rt (u ∷ us) = stop_peers (stop_peer rt u) us
