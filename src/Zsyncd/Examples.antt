-- ===== src/Zsyncd/Examples.antt =====
-- Two rooms and an address that fails eight times.
use zsync.Base.{
  ltb, leb, Text, codes, text_eq, nat_eq, ℕ, ◌+◌, ◌≡◌, refl, ◌&&◌, List, [], ◌∷◌, arith,
}
use zsync.Base.Map.{lookup}
use zsync.Zsyncd.Probes.{IpAddr, is_banned, probe_max_fails, probe_ban}
use zsync.Zsyncd.Probes.Bans.{failures, last_time, banned_after_failures}
use zsync.Zsyncd.Rooms.{Member, new, room}
use zsync.Zsyncd.Rooms.Sessions.{Unique}
use zsync.Zsyncd.Rooms.Devices.{RoomOp, joining, kicking, perform_all, rooms-Unique}

abbrev ip : IpAddr
ip = codes "10.0.0.9"

abbrev other_ip : IpAddr
other_ip = codes "10.0.0.7"

abbrev times : List ℕ
times = 1000 ∷ 2000 ∷ 3000 ∷ 4000 ∷ 5000 ∷ 6000 ∷ 7000 ∷ []

banned_after_failures_example :
    (is_banned (failures [] ip (500 ∷ times)) ip 600000).1
    ≡ (leb probe_max_fails 8 && ltb 600000 (last_time 500 times + probe_ban))
unfolding lookup
banned_after_failures_example =
    banned_after_failures [] ip 500 times 600000 tt refl (ground arith) (omega arith)

abbrev desk : Member
desk = record {
  device_id = codes "desk";
  hostname = codes "box";
  peer = codes "10.0.0.2:9";
  tx = 1;
  stop = 2;
}

abbrev desk_again : Member
desk_again = record desk { tx = 3; stop = 4 }

abbrev phone : Member
phone = record {
  device_id = codes "phone";
  hostname = [];
  peer = codes "10.0.0.3:9";
  tx = 5;
  stop = 6;
}

abbrev home : Text
home = codes "c0ffee"

abbrev ops : List RoomOp
ops =
    joining home desk
    ∷ joining home phone
    ∷ joining home desk_again
    ∷ kicking home (codes "phone")
    ∷ []

rooms-Unique_example : Unique (room home (perform_all new ops))
rooms-Unique_example = rooms-Unique ops home
