-- ===== src/Zsyncd/Leaf/Joining.antt =====
-- The first frame of a connection to the relay server, and its answer to a join (zsyncd.rs). The
-- bytes are those that the leaf sends before it waits; `writes` says whether the transport takes the
-- answer.
use zsync.Base.{
  if◌then◌else◌, Bytes, Text, text_eq, nat_eq, ok, err, ℕ, Bool, true, Option, none, some, List, [],
}
use zsync.Protocol.{Json}
use zsync.Relay.{join_ack, JoinAck, write_json, read_frame}
use zsync.Zsyncd.Groups.{Disk}
use zsync.Zsyncd.Leaf.{JoinMsg, FirstFrame, no_frame, frame, Server, Connection, handshake}

unfoldable pub first_frame : Bytes → FirstFrame
first_frame bytes = elim (read_frame bytes) [ err e ↦ no_frame | ok (f, rest) ↦ frame f.0 f.1 ]

abbrev pub accepted : JoinAck
accepted = record { ok_flag = true; message = [] }

-- What is written, and the session that goes on to the loop.
unfoldable pub answer_join :
    Json JoinAck → Option (Text × Text) → Bool → Bytes × Option (Text × Text)
answer_join ack_codec none writes = ([], none)
answer_join ack_codec (some session) writes = elim (write_json ack_codec join_ack accepted) [
  | err e ↦ ([], none)
  | ok b ↦ if writes then (b, some session) else ([], none)
]

-- A connection up to the loop: the server, the sessions that it stops, what it writes, and the
-- session that starts.
unfoldable pub open_leaf :
    Json JoinMsg
    → Json JoinAck
    → Server
    → Disk
    → Connection
    → Bytes
    → ℕ
    → Bool
    → Server × List ℕ × Bytes × Option (Text × Text)
unfolding answer_join first_frame
open_leaf codec ack_codec srv disk c bytes now writes =
    let (srv', stopped, joined) = handshake codec.from_slice srv disk c (first_frame bytes) now in
    let (written, session) = answer_join ack_codec joined writes in
    (srv', stopped, written, session)
