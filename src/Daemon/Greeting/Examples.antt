-- ===== src/Daemon/Greeting/Examples.antt =====
-- A laptop greets a television, which has no session yet, and one that has.
use zsync.Base.{
  none, some, Bytes, codes, text_eq, nat_eq, ok, ◌≡◌, refl, true, false, [], ◌∷◌, ◌++◌,
}
use zsync.Protocol.{hello, hello_ack, Hello}
use zsync.Protocol.Frame.{encode_frame, encode_json}
use zsync.Protocol.Frame.Header.{framed}
use zsync.Protocol.Examples.{codec, via, write_meta}
use zsync.Clipboard.Memory.{Memory}
use zsync.Hub.Examples.{laptop}
use zsync.Daemon.Table.{PeerStatus, new_status}
use zsync.Daemon.Table.Live.{World}
use zsync.Daemon.Examples.{greeting, hello_codec, hello_meta}
use zsync.Daemon.Greeting.{opened, run_tcp_init, accept_greeting}
use zsync.Daemon.Greeting.Meeting.{nodes_greet}

abbrev caller : Hello
caller = record greeting { node_id = codes "pc"; hostname = codes "pc"; headless = false }

abbrev status : PeerStatus
status = new_status (codes "tv:43721") (codes "connecting")

abbrev fresh : World Memory
fresh = record {
  runtime = record {
    hub = laptop;
    peers = [];
    live = [];
    port = 43721;
    channels = 0;
    signalled = [];
    spawned = [];
  };
  running = [];
}

abbrev busy : World Memory
busy = record fresh { runtime = record (fresh.runtime) { live = codes "pc" ∷ [] } }

abbrev asks : Bytes
asks = framed hello (write_meta (hello_meta caller))

abbrev answers : Bytes
answers = framed hello_ack (write_meta (hello_meta greeting))

asked : encode_json hello_codec hello caller ≡ ok asks
unfolding encode_json encode_frame hello_codec via codec write_meta
asked = refl

answered : encode_json hello_codec hello_ack greeting ≡ ok answers
unfolding encode_json encode_frame hello_codec via codec write_meta
answered = refl

nodes_greet_example :
    let accepted = accept_greeting hello_codec greeting fresh (codes "pc:5000") (asks ++ []) true in
    let dialled = run_tcp_init hello_codec caller status (answers ++ []) true true in
    (accepted.1 ≡ answers)
    × (accepted.2 ≡ opened caller [])
    × (accepted.0.runtime.live ≡ codes "pc" ∷ [])
    × (accepted.0.running ≡ codes "pc" ∷ [])
    × (dialled.0 ≡ record status {
      state = codes "connected";
      remote_node = some greeting.node_id;
      remote_host = some greeting.hostname;
      last_error = none;
    })
    × (dialled.1 ≡ (asks, ok (greeting, [])))
nodes_greet_example =
    nodes_greet hello_codec caller greeting fresh (codes "pc:5000") status asks answers asked
      answered refl
