-- ===== src/Daemon/Dispatch/Examples.antt =====
-- A daemon with one saved peer, which also has a connection that came in.
use zsync.Base.{
  any, Bytes, Text, codes, text_eq, ◌==◌, nat_eq, ok, ◌≡◌, refl, Bool, true, false, Option, none,
  some, List, [], ◌∷◌, ◌++◌,
}
use zsync.Base.Map.{lookup}
use zsync.Protocol.{Hello}
use zsync.Protocol.Examples.{digest}
use zsync.State.{StateFile, open_state}
use zsync.State.Peers.{saved_as}
use zsync.Net.{PeerTarget, parse_peer, parse_tcp, split_host_port, format_host_port}
use zsync.Group.Uris.{show_u16}
use zsync.Group.Uris
use zsync.Clipboard.Memory.{Memory, empty_memory}
use zsync.Hub.{new}
use zsync.Hub.Examples.{board}
use zsync.Daemon.Table.{Runtime, new_status, key_of}
use zsync.Daemon.Table.Live.{World, LiveEvent, incoming, dialled, ended, member, advance, after}
use zsync.Daemon.Table.Claims.{IsSound, after-IsSound, unanswered_never_connects}
use zsync.Daemon.Dispatch.{Reply, dispatch, plain}
use zsync.Daemon.Dispatch.Disconnect.{request, IsCanonical, disconnect_unknown_stops_all}
use zsync.Daemon.Dispatch.Connect.{connection, is_stopped, connect_dials}

abbrev pub is_ipv6 : Text → Bool
is_ipv6 s = any (λ c. c == b':') s

abbrev pub b64_decode : Text → Option Bytes
b64_decode s = none

abbrev desk : Text
desk = codes "desk:43721"

abbrev desk_target : PeerTarget
desk_target = record { uri = desk; host = codes "desk"; port = 43721; relay = none }

abbrev guest : Text
guest = codes "10.0.0.9:50000"

abbrev saved : StateFile
saved = open_state (some (record { seq = 4; peers = record { uri = desk; enabled = true } ∷ [] }))

abbrev pub daemon : Runtime Memory
daemon = record {
  hub = new (codes "laptop") empty_memory saved 5000;
  peers =
      (desk, record { status = new_status desk (codes "connected"); stop = 0 })
      ∷ (guest, record { status = new_status guest (codes "connected"); stop = 1 })
      ∷ [];
  live = desk ∷ [];
  port = 43721;
  channels = 2;
  signalled = [];
  spawned = (desk_target, 0) ∷ [];
}

daemon-saved :
    (saved_as desk daemon.hub.state.inner.peers ≡ some true)
    × (saved_as (codes "desk") daemon.hub.state.inner.peers ≡ none)
unfolding new open_state
daemon-saved = (refl, refl)

daemon-IsCanonical : IsCanonical is_ipv6 b64_decode daemon.peers
unfolding key_of parse_peer parse_tcp split_host_port Uris.split_host_port format_host_port show_u16
daemon-IsCanonical = (refl, (refl, tt))

abbrev order : Text → Reply Memory
order uri = dispatch board digest is_ipv6 b64_decode some daemon (request uri) [] [] 0 0 true

-- The port is left out, which is not how the address is saved.
disconnect_unknown_stops_all_example :
    (lookup guest (order (codes "desk")).0.peers ≡ none)
    × ((order (codes "desk")).1 ≡ plain true none)
unfolding new open_state
disconnect_unknown_stops_all_example =
    disconnect_unknown_stops_all board digest is_ipv6 b64_decode some daemon (codes "desk") guest
      (refl, tt) daemon-saved.1 daemon-IsCanonical

parsed_desk : parse_peer is_ipv6 b64_decode desk ≡ ok desk_target
unfolding parse_peer parse_tcp split_host_port Uris.split_host_port format_host_port show_u16
parsed_desk = refl

parsed_typed : parse_peer is_ipv6 b64_decode (codes " tcp://desk") ≡ ok desk_target
unfolding parse_peer parse_tcp split_host_port Uris.split_host_port format_host_port show_u16
parsed_typed = refl

connect_dials_example :
    let out =
      dispatch board digest is_ipv6 b64_decode some daemon
        (connection (codes " tcp://desk"))
        []
        []
        0
        0
        true in
    (out.1 ≡ plain true none)
    × (saved_as desk out.0.hub.state.inner.peers ≡ some true)
    × (lookup desk out.0.peers
        ≡ some (record { status = new_status desk (codes "connecting"); stop = 2 }))
    × (out.0.spawned ≡ daemon.spawned ++ (desk_target, 2) ∷ [])
    × (is_stopped (lookup desk daemon.peers) out.0.signalled ≡ true)
unfolding new open_state
connect_dials_example =
    connect_dials board digest is_ipv6 b64_decode some daemon (codes " tcp://desk") desk_target
      desk_target desk_target desk_target (refl, tt) parsed_typed refl parsed_desk refl

abbrev world : World Memory
world = record { runtime = daemon; running = desk ∷ [] }

abbrev visitor : Hello
visitor = record {
  node_id = codes "phone";
  hostname = codes "phone";
  os = codes "android";
  headless = true;
  version = codes "1";
  max_bytes = 10485760;
}

abbrev busy_day : List LiveEvent
busy_day =
    incoming visitor guest true
    ∷ ended (codes "phone")
    ∷ dialled desk
    ∷ incoming visitor guest true
    ∷ []

world-IsSound : IsSound world.runtime.live world.running
world-IsSound = record { claimed = λ k h. h; once = (refl, tt) }

after-IsSound_example : IsSound (after world busy_day).runtime.live (after world busy_day).running
after-IsSound_example = after-IsSound world busy_day world-IsSound

unanswered_never_connects_example :
    let later = after (advance world (incoming visitor guest false)) busy_day in
    (member (codes "phone") later.running ≡ false)
    × (advance later (incoming visitor guest true) ≡ later)
unanswered_never_connects_example =
    unanswered_never_connects world visitor visitor guest guest true busy_day world-IsSound refl
      refl
