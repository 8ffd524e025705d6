-- ===== src/Zsyncd/Leaf/Examples.antt =====
-- A join of an enabled group, which the server has to read from its file first.
use zsync.Base.{
  ℕ, if◌then◌else◌, any, Bytes, Text, codes, text_eq, ◌==◌, nat_eq, ok, ◌≡◌, refl, true, false, not,
  ◌&&◌, Option, none, some, [], ◌∷◌, ◌++◌, arith,
}
use zsync.Relay.{join, payload, error, write_frame}
use zsync.Relay.Frames.{relayed}
use zsync.Base.Map.{lookup, insert}
use zsync.Zsyncd.Groups.{get, refresh, collect, is_enabled}
use zsync.Zsyncd.Rooms
use zsync.Zsyncd.Leaf.Leaving.{late_leave_drops_new_session}
use zsync.Zsyncd.Rooms.{Member, room, is_device, broadcast}
use zsync.Zsyncd.Rooms.Sessions.{others}
use zsync.Zsyncd.Leaf.Serving.{LeafSession, going, finished, arrived, queued, stop_changed, serve}
use zsync.Zsyncd.Leaf.Forwarding.{envelope_needs_enabled_group, envelope_reaches_member}
use zsync.Zsyncd.Groups.{Disk}
use zsync.Zsyncd.Leaf.{JoinMsg, FirstFrame, frame, Server, Connection}

abbrev home : Text
home = codes "aaaaaaaaaaaaaaaaaaaaaaaaaaaaaaaa"

abbrev desk : JoinMsg
desk = record { group_id = home; device_id = codes "desk"; hostname = codes "box"; version = [] }

-- A reader that knows one message.
abbrev from_slice : Bytes → Option JoinMsg
from_slice body = if body == codes "desk" then some desk else none

abbrev server : Server
server = record { allow = record { mtime = none; groups = [] }; rooms = []; probes = [] }

abbrev disk : Disk
disk = record {
  mtime = some 1;
  exists = true;
  file = record { id = home; name = []; enabled = true } ∷ [];
}

abbrev connection : Connection
connection = record { ip = codes "10.0.0.9"; peer = codes "10.0.0.9:4000"; tx = 1; stop = 2 }

abbrev first : FirstFrame
first = frame join (codes "desk")

abbrev busy : Server
busy = record server {
  rooms =
      (
        home,
        record { device_id = codes "desk"; hostname = []; peer = []; tx = 1; stop = 2 }
            ∷ record { device_id = codes "phone"; hostname = []; peer = []; tx = 3; stop = 4 }
            ∷ [],
      )
      ∷ [];
}

abbrev session_of : Text → ℕ → LeafSession
session_of device tx = record {
  gid = home;
  device = device;
  tx = tx;
  held = [];
  socket = [];
  written = [];
  stage = going;
}

abbrev sealed : Bytes
sealed = 1 ∷ 2 ∷ 3 ∷ []

abbrev sealed_frame : Bytes
sealed_frame = relayed payload sealed

write_sealed : write_frame [] payload sealed ≡ ok sealed_frame
unfolding write_frame
write_sealed = refl

abbrev closed_group : Disk
closed_group = record disk { file = record { id = home; name = []; enabled = false } ∷ [] }

abbrev said : Bytes
said = codes "no"

abbrev said_frame : Bytes
said_frame = relayed error said

write_said : write_frame [] error said ≡ ok said_frame
unfolding write_frame
write_said = refl

-- Every queue holds 15 frames.
abbrev filled : ℕ → ℕ
filled tx = 15

envelope_needs_enabled_group_example :
    let out =
      serve said filled busy closed_group
        (session_of (codes "desk") 1)
        (arrived sealed_frame)
        true in
    let admitted = is_enabled (get busy.allow closed_group home).1 in
    (out.2 ≡ (if admitted then broadcast busy.rooms filled home (codes "desk") sealed else []))
    × (room home out.0.rooms ≡ (
        if admitted
        then room home busy.rooms
        else if home == home
        then others (codes "desk") (room home busy.rooms)
        else room home busy.rooms))
    × (out.1.stage ≡ (if admitted then going else finished))
    × (out.1.written ≡ (if admitted then [] else if true then [] ++ said_frame else []))
envelope_needs_enabled_group_example =
    envelope_needs_enabled_group said filled busy closed_group (session_of (codes "desk") 1) sealed
      sealed_frame said_frame true home refl refl refl write_sealed write_said

home_enabled : is_enabled (get busy.allow disk home).1 ≡ true
unfolding get refresh collect lookup insert
home_enabled = refl

queue_there : any (λ m. m.tx == 3 && not (is_device (codes "desk") m)) (room home busy.rooms) ≡ true
unfolding lookup
queue_there = refl

envelope_reaches_member_example :
    (any
        (λ o. o.0 == 3 && o.1 == sealed)
        (serve said filled busy disk (session_of (codes "desk") 1) (arrived sealed_frame) true).2
      ≡ true)
    × ((serve said filled busy disk
          (session_of (codes "phone") 3)
          (queued (some sealed))
          true).1.written
        ≡ [] ++ sealed_frame)
envelope_reaches_member_example =
    envelope_reaches_member said filled filled busy busy disk disk (session_of (codes "desk") 1)
      (session_of (codes "phone") 3) sealed sealed_frame true refl refl refl write_sealed
      home_enabled queue_there (omega arith) refl

abbrev room_member : ℕ → ℕ → Member
room_member tx stop = record {
  device_id = codes "desk";
  hostname = codes "box";
  peer = [];
  tx = tx;
  stop = stop;
}

late_leave_drops_new_session_example :
    let joined = Rooms.join (Rooms.join [] home (room_member 1 2)).0 home (room_member 5 6) in
    let out =
      serve said filled
        (record server { rooms = joined.0 })
        disk
        (session_of (codes "desk") 1)
        (stop_changed true)
        true in
    (joined.1 ≡ 2 ∷ [])
    × (out.3 ≡ 5 ∷ [])
    × (any (is_device (codes "desk")) (room home out.0.rooms) ≡ false)
    × ((serve said filled server disk (session_of (codes "desk") 5) (queued none) true).1.stage
        ≡ finished)
unfolding lookup
late_leave_drops_new_session_example =
    late_leave_drops_new_session said filled filled server server disk disk (room_member 1 2)
      (room_member 5 6) (session_of (codes "desk") 1) (session_of (codes "desk") 5) true tt refl
      refl refl refl refl
