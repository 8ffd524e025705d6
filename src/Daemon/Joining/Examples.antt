-- ===== src/Daemon/Joining/Examples.antt =====
-- A laptop joins its group, which the server has in its file, enabled or disabled.
use zsync.Base.{
  eqb, ◌&&◌, ◌==◌, any, Bytes, codes, text_eq, nat_eq, ok, ◌≡◌, refl, ap, Bool, true, false, none,
  some, [], ◌∷◌, ◌++◌, arith,
}
use zsync.Base.Map.{lookup, insert}
use zsync.Protocol.{ClipMeta, Json, hex_encode}
use zsync.Protocol.Examples.{codec, via, write_meta}
use zsync.Group.Examples.{id}
use zsync.Relay.{join, join_ack, JoinAck, ErrorMsg, write_frame, write_json}
use zsync.Relay.Frames.{relayed}
use zsync.Zsyncd.Groups.{Disk, get, refresh, collect, is_enabled}
use zsync.Zsyncd.Rooms.{is_device, room}
use zsync.Zsyncd.Leaf.{JoinMsg, Server, Connection}
use zsync.Zsyncd.Leaf.Joining.{accepted, open_leaf}
use zsync.Daemon.Examples.{flag, flag-eqb}
use zsync.Daemon.Joining.{join_message, request_join}
use zsync.Daemon.Joining.Admission.{join_accepted, unanswered_join_stays}

abbrev join_meta : JoinMsg → ClipMeta
join_meta j = record {
  origin_id = j.group_id;
  seq = 0;
  mime = j.device_id;
  hash = j.hostname;
  size = 0;
  name = j.version;
}

unfoldable join_codec : Json JoinMsg
join_codec =
    via codec join_meta
      (λ m. record {
        group_id = m.origin_id;
        device_id = m.mime;
        hostname = m.hash;
        version = m.name;
      })
      (λ j. refl)

abbrev ack_meta : JoinAck → ClipMeta
ack_meta a = record {
  origin_id = a.message;
  seq = flag a.ok_flag;
  mime = [];
  hash = [];
  size = 0;
  name = [];
}

unfoldable ack_codec : Json JoinAck
ack_codec =
    via codec ack_meta (λ m. record { ok_flag = eqb m.seq 1; message = m.origin_id })
      (λ a. ap (λ b. record a { ok_flag = b }) (flag-eqb a.ok_flag))

unfoldable error_codec : Json ErrorMsg
error_codec =
    via codec
      (λ e. record {
        origin_id = e.code;
        seq = 0;
        mime = e.message;
        hash = [];
        size = 0;
        name = [];
      })
      (λ m. record { code = m.origin_id; message = m.mime }) (λ e. refl)

abbrev server : Server
server = record { allow = record { mtime = none; groups = [] }; rooms = []; probes = [] }

abbrev disk : Bool → Disk
disk enabled = record {
  mtime = some 1;
  exists = true;
  file = record { id = hex_encode id; name = []; enabled = enabled } ∷ [];
}

abbrev visitor : Connection
visitor = record { ip = codes "10.0.0.9"; peer = codes "10.0.0.9:4000"; tx = 1; stop = 2 }

abbrev msg : JoinMsg
msg = join_message id (codes "pc") (codes "box") (codes "1")

abbrev asks : Bytes
asks = relayed join (write_meta (join_meta msg))

abbrev acks : Bytes
acks = relayed join_ack (write_meta (ack_meta accepted))

asked : write_json join_codec join msg ≡ ok asks
unfolding write_json write_frame join_codec via codec write_meta join_message hex_encode
asked = refl

answered : write_json ack_codec join_ack accepted ≡ ok acks
unfolding write_json write_frame ack_codec via codec write_meta
answered = refl

enabled : (b : Bool) → is_enabled (get server.allow (disk b) (hex_encode id)).1 ≡ b
unfolding get refresh collect hex_encode lookup insert
enabled b = refl

join_accepted_example :
    let out = open_leaf join_codec ack_codec server (disk true) visitor (asks ++ []) 10 true in
    (any
        (λ m. is_device (codes "pc") m && m.tx == 1 && m.stop == 2)
        (room (hex_encode id) out.0.rooms)
      ≡ true)
    × (out.2 ≡ acks)
    × (out.3 ≡ some (hex_encode id, codes "pc"))
    × (request_join join_codec ack_codec error_codec msg (acks ++ []) true ≡ (asks, ok []))
join_accepted_example =
    join_accepted join_codec ack_codec error_codec server (disk true) visitor 10 id (codes "pc")
      (codes "box") (codes "1") asks (omega arith) refl asked acks answered (enabled true)

unanswered_join_stays_example :
    let out = open_leaf join_codec ack_codec server (disk true) visitor (asks ++ []) 10 false in
    (out.3 ≡ none) × (any (is_device (codes "pc")) (room (hex_encode id) out.0.rooms) ≡ true)
unanswered_join_stays_example =
    unanswered_join_stays join_codec ack_codec error_codec server (disk true) visitor 10 id
      (codes "pc") (codes "box") (codes "1") asks (omega arith) refl asked (enabled true)
