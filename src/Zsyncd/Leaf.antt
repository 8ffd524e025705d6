-- ===== src/Zsyncd/Leaf.antt =====
-- `serve_leaf` (zsyncd.rs) up to the acknowledgement of the join. TLS and the socket give the first
-- frame of a connection, or none in time; `from_slice` is what serde_json reads from its payload.
pub mod Admission
pub mod Serving
pub mod Joining
pub mod Forwarding
pub mod Leaving
mod Examples
use zsync.Base.{
  ltb, leb, eqb, if◌then◌else◌, ltb→lt, lt→ltb, le→ltb, leb→le, eqb_iff, Bool-cases, Option-cases,
  length, get_or, take, drop, replicate, is_empty, any, all, keep, All, length-append, length-drop,
  length-take, take-append, drop-append, take-append-drop, take-length, any-append, length-keep-le,
  Bytes, Text, codes, text_beq, text_beq_iff, text_eq, starts_with, utf8_width, text_len, ◌>>=◌,
  ◌>>◌, fail_if, or_fail, Result-cases, Result, Eq, ◌==◌, nat_eq, ok, err, ℕ, zero, suc, ◌+◌, ◌-◌,
  ◌*◌, ◌/◌, ◌%◌, ◌^◌, ◌≤◌, ◌<◌, min, max, ◌≡◌, refl, sym, ap, ap₂, ◌∙◌, subst, ◌≢◌, ◌↔◌, ◌⊎◌, inl,
  inr, Bool, true, false, not, ◌&&◌, ◌||◌, Option, none, some, List, [], ◌∷◌, ◌++◌, map,
  append_assoc, append-nil, arith,
}
use zsync.Relay.{RelayType, join, join_ack, payload, ping, pong, error, bye}
use zsync.Zsyncd.Groups.{Allowlist, Disk, ServerError, canonical, get, is_enabled}
use zsync.Zsyncd.Probes.{ProbeTracker, IpAddr, fail, clear}
use zsync.Zsyncd.Rooms
use zsync.Zsyncd.Rooms.{Rooms, Member}

-- The message `Join` of relay.rs.
pub record JoinMsg : Type 0 where
  pub group_id : Text
  pub device_id : Text
  pub hostname : Text
  pub version : Text

pub data FirstFrame : Type 0 where
  no_tls no_frame : FirstFrame
  frame : RelayType → Bytes → FirstFrame

pub record Server : Type 0 where
  pub allow : Allowlist
  pub rooms : Rooms
  pub probes : ProbeTracker

-- A connection: its address, the address as text, and the numbers of its two channels.
pub record Connection : Type 0 where
  pub ip : IpAddr
  pub peer : Text
  pub tx : ℕ
  pub stop : ℕ

-- The server after the handshake, the sessions it stops, and the group and device that joined.
abbrev pub Handshake : Type 0
Handshake = Server × List ℕ × Option (Text × Text)

-- The connection is closed without a word.
unfoldable pub refuse : Server → Connection → ℕ → Handshake
refuse srv c now = (record srv { probes = fail srv.probes c.ip now }, [], none)

unfoldable pub admit : Server → Connection → Text → JoinMsg → Handshake
admit srv c gid j =
    let (rooms, stopped) = Rooms.join srv.rooms gid (record {
      device_id = j.device_id;
      hostname = j.hostname;
      peer = c.peer;
      tx = c.tx;
      stop = c.stop;
    }) in
    (record srv { rooms = rooms; probes = clear srv.probes c.ip }, stopped, some (gid, j.device_id))

unfoldable pub join_group : Server → Disk → Connection → JoinMsg → ℕ → Handshake
join_group srv disk c j now = elim (canonical j.group_id) [
  | err e ↦ refuse srv c now
  | ok id ↦
      let (allow, g) = get srv.allow disk id in
      let srv' = record srv { allow = allow } in
      if is_enabled g then admit srv' c id j else refuse srv' c now
]

abbrev pub is_join : RelayType → Bool
is_join join = true
is_join _ = false

module _ (from_slice : Bytes → Option JoinMsg) where
  unfoldable pub handshake : Server → Disk → Connection → FirstFrame → ℕ → Handshake
  handshake srv disk c no_tls now = refuse srv c now
  handshake srv disk c no_frame now = refuse srv c now
  handshake srv disk c (frame typ body) now =
      if is_join typ
      then elim (from_slice body) [ none ↦ refuse srv c now | some j ↦ join_group srv disk c j now ]
      else refuse srv c now
