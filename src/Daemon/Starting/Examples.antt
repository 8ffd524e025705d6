-- ===== src/Daemon/Starting/Examples.antt =====
-- A laptop starts with three saved peers, of which the first is disabled and the second lacks its
-- key.
use zsync.Base.{
  Bytes, Text, codes, text_eq, nat_eq, ok, ◌≡◌, refl, inl, true, false, none, some, List, [], ◌∷◌,
  ◌++◌,
}
use zsync.Base.Map.{lookup}
use zsync.Protocol.{Json}
use zsync.Protocol.Examples.{codec, via, write_meta}
use zsync.State.{PeerState, open_state}
use zsync.Group.Keys.{GroupFile, Base64, save_group_key}
use zsync.Group.Uris.{show_u16}
use zsync.Group.Uris
use zsync.Net.Keys.{with_key, resolve_relay, resolve_relay_again}
use zsync.Net.{PeerTarget, parse_peer, parse_tcp, split_host_port, format_host_port}
use zsync.Clipboard.Memory.{Memory, empty_memory}
use zsync.Hub.{new}
use zsync.Daemon.Table.{Runtime}
use zsync.Daemon.Dispatch.Examples.{is_ipv6}
use zsync.Daemon.Starting.{start_peers}
use zsync.Daemon.Starting.Dials.{is_dialled, saved_peer_dialled}

abbrev b64 : Base64
b64 = record { encode = λ b. b; decode = some; decode-encode = λ b. refl }

unfoldable file_codec : Json GroupFile
file_codec =
    via codec
      (λ f. record {
        origin_id = f.key;
        seq = f.port;
        mime = f.host;
        hash = [];
        size = 0;
        name = [];
      })
      (λ m. record { key = m.origin_id; host = m.mime; port = m.seq }) (λ f. refl)

abbrev desk : Text
desk = codes "desk:43721"

abbrev desk_target : PeerTarget
desk_target = record { uri = desk; host = codes "desk"; port = 43721; relay = none }

abbrev short : PeerState
short = record { uri = codes "desk"; enabled = true }

abbrev others : List PeerState
others = record { uri = codes "attic"; enabled = false } ∷ record { uri = []; enabled = true } ∷ []

abbrev daemon : Runtime Memory
daemon = record {
  hub =
      new (codes "laptop") empty_memory
        (open_state (some (record { seq = 4; peers = others ++ short ∷ [] }))) 5000;
  peers = [];
  live = [];
  port = 43721;
  channels = 0;
  signalled = [];
  spawned = [];
}

parsed :
    (parse_peer is_ipv6 b64.decode short.uri ≡ ok desk_target)
    × (parse_peer is_ipv6 b64.decode desk ≡ ok desk_target)
unfolding parse_peer parse_tcp split_host_port Uris.split_host_port format_host_port show_u16
parsed = (refl, refl)

saved : daemon.hub.state.inner.peers ≡ others ++ short ∷ []
unfolding new open_state
saved = refl

saved_peer_dialled_example :
    is_dialled desk (start_peers is_ipv6 b64 file_codec true (daemon, [])).0 ≡ true
unfolding lookup
saved_peer_dialled_example =
    saved_peer_dialled is_ipv6 b64 file_codec true daemon [] others [] short desk_target saved
      (λ k. inl refl) refl parsed.0 refl parsed.1

abbrev relay_target : PeerTarget
relay_target = record { uri = codes "zsync://AQ@hub"; host = codes "hub"; port = 443; relay = none }

abbrev key : Bytes
key = codes "a key of thirty-two bytes, in it"

resolve_relay_again_example :
    let bound = with_key relay_target (1 ∷ []) key in
    let dir' = (resolve_relay b64 file_codec [] bound true).0 in
    resolve_relay b64 file_codec dir'
      (record relay_target { relay = some (record { group_id = 1 ∷ []; key = none }) })
      false
    ≡ (dir', ok bound)
unfolding resolve_relay save_group_key file_codec via codec write_meta
resolve_relay_again_example =
    resolve_relay_again b64 file_codec [] relay_target (1 ∷ []) key false refl refl
