-- ===== src/Zsyncd/Leaf/Admission.antt =====
-- Which connections `serve_leaf` lets into a room.
use zsync.Base.{
  Bool-cases, Option-cases, Bytes, Text, text_eq, Result-cases, nat_eq, ok, ℕ, ◌≡◌, refl, ap, ◌⊎◌,
  inl, inr, true, Option, none, some, [], arith,
}
use zsync.Relay.{RelayType, join}
use zsync.Zsyncd.Groups.{Disk, canonical, get, is_enabled}
use zsync.Zsyncd.Probes.{fail, clear}
use zsync.Zsyncd.Rooms
use zsync.Zsyncd.Rooms.{Rooms, Member}
use zsync.Zsyncd.Leaf.{
  JoinMsg, FirstFrame, no_tls, no_frame, frame, Server, Connection, Handshake, refuse, admit,
  join_group, is_join, handshake,
}

-- The handshake ends without a session, and counts as a failure of the address.
pub record IsRefused (srv : Server) (c : Connection) (now : ℕ) (out : Handshake) : Type 0 where
  nobody : out.2 ≡ none
  nothing_stopped : out.1 ≡ []
  rooms_same : out.0.rooms ≡ srv.rooms
  counted : out.0.probes ≡ fail srv.probes c.ip now

-- The handshake of the message `j` ends with a session in the room of its group.
pub record IsAdmitted (srv : Server) (disk : Disk) (c : Connection) (j : JoinMsg) (gid : Text)
    (out : Handshake) : Type 0 where
  canonical_id : canonical j.group_id ≡ ok gid
  group_enabled : is_enabled (get srv.allow disk gid).1 ≡ true
  somebody : out.2 ≡ some (gid, j.device_id)
  forgiven : out.0.probes ≡ clear srv.probes c.ip
  joined :
      out.0.rooms
      ≡ (Rooms.join srv.rooms gid (record {
        device_id = j.device_id;
        hostname = j.hostname;
        peer = c.peer;
        tx = c.tx;
        stop = c.stop;
      })).0

refuse-IsRefused :
    (srv : Server) (c : Connection) (now : ℕ) → IsRefused srv c now (refuse srv c now)
unfolding refuse
refuse-IsRefused srv c now = record {
  nobody = refl;
  nothing_stopped = refl;
  rooms_same = refl;
  counted = refl;
}

join_group_cases :
    (srv : Server) (disk : Disk) (c : Connection) (j : JoinMsg) (now : ℕ)
    → ((gid : Text) × IsAdmitted srv disk c j gid (join_group srv disk c j now))
      ⊎ IsRefused srv c now (join_group srv disk c j now)
unfolding join_group admit refuse
join_group_cases srv disk c j now = elim (Result-cases (canonical j.group_id)) [
  | inl (e, bad) ↦ rw (join_group, bad) (inr (refuse-IsRefused srv c now))
  | inr (gid, good) ↦ elim (Bool-cases (is_enabled (get srv.allow disk gid).1)) [
    | inl on ↦ inl (
      gid,
      record {
        canonical_id = good;
        group_enabled = on;
        somebody = rw (join_group, good, on) refl;
        forgiven = rw (join_group, good, on) refl;
        joined = rw (join_group, good, on) refl;
      },
    )
    | inr off ↦ inr (record {
      nobody = rw (join_group, good, off) refl;
      nothing_stopped = rw (join_group, good, off) refl;
      rooms_same = rw (join_group, good, off) refl;
      counted = rw (join_group, good, off) refl;
    })
  ]
]

-- A first frame that is a join, with the message that is read from it.
abbrev pub Joins : (Bytes → Option JoinMsg) → FirstFrame → JoinMsg → Type 0
Joins from_slice first j = (body : Bytes) × (first ≡ frame join body) × (from_slice body ≡ some j)

join_only : (t : RelayType) → is_join t ≡ true → t ≡ join
join_only t h = ground arith

-- A handshake has one of two ends. Either the first frame is a join whose group id is well formed
-- and stands, in its canonical form, for an enabled group: then the session joins the room of that
-- id, and the failures of the address are forgotten. Or nobody joins, no session is stopped, the
-- rooms stay, and the address has one failure more.
pub handshake_ends :
    (from_slice : Bytes → Option JoinMsg) (srv : Server) (disk : Disk) (c : Connection)
    (first : FirstFrame) (now : ℕ)
    → ((j : JoinMsg) × (gid : Text) × Joins from_slice first j
        × IsAdmitted srv disk c j gid (handshake from_slice srv disk c first now))
      ⊎ IsRefused srv c now (handshake from_slice srv disk c first now)
unfolding handshake
handshake_ends from_slice srv disk c no_tls now = inr (refuse-IsRefused srv c now)
handshake_ends from_slice srv disk c no_frame now = inr (refuse-IsRefused srv c now)
handshake_ends from_slice srv disk c (frame typ body) now = elim (Bool-cases (is_join typ)) [
  | inr other ↦ rw other (inr (refuse-IsRefused srv c now))
  | inl is_join_frame ↦ elim (Option-cases (from_slice body)) [
    | inl garbage ↦ rw (is_join_frame, garbage) (inr (refuse-IsRefused srv c now))
    | inr (j, read) ↦
        rw (is_join_frame, read)
          (elim (join_group_cases srv disk c j now) [
            | inl (gid, admitted) ↦ inl (
              j,
              gid,
              (body, ap (λ t. frame t body) (join_only typ is_join_frame), read),
              admitted,
            )
            | inr refused ↦ inr refused
          ])
  ]
]
