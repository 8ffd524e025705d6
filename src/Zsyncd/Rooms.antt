-- ===== src/Zsyncd/Rooms.antt =====
-- `Rooms` (zsyncd.rs): which sessions of a group are connected to the relay. The two channels of
-- a session are numbers, `tx` for its frames and `stop` for its end. An operation returns what it
-- does to the channels: the `stop` channels it signals, the `tx` channels it closes, or the frames
-- it puts into `tx` channels. A member has the only senders of its two channels, so those of a
-- member that an operation takes out and signals are closed as well; the session then reads the
-- signal, or the end of its queue, and ends in either way.
pub mod Sessions
pub mod Delivery
pub mod Devices
use zsync.Base.{
  ltb, leb, eqb, if◌then◌else◌, ltb→lt, lt→ltb, le→ltb, leb→le, eqb_iff, Bool-cases, Option-cases,
  length, get_or, take, drop, replicate, is_empty, any, all, keep, All, length-append, length-drop,
  length-take, take-append, drop-append, take-append-drop, take-length, any-append, length-keep-le,
  Bytes, Text, codes, text_beq, text_beq_iff, text_eq, starts_with, utf8_width, text_len, ◌>>=◌,
  ◌>>◌, fail_if, or_fail, Result-cases, Result, Eq, ◌==◌, nat_eq, ok, err, ℕ, zero, suc, ◌+◌, ◌-◌,
  ◌*◌, ◌/◌, ◌%◌, ◌^◌, ◌≤◌, ◌<◌, min, max, ◌≡◌, refl, sym, ap, ap₂, ◌∙◌, subst, ◌≢◌, ◌↔◌, ◌⊎◌, inl,
  inr, Bool, true, false, not, ◌&&◌, ◌||◌, Option, none, some, List, [], ◌∷◌, ◌++◌, map,
  append_assoc, append-nil, arith,
}
use zsync.Base.Map.{
  Map, lookup, insert, remove, retain, eq_refl, lookup-insert, lookup-remove, Distinct,
}

pub record Member : Type 0 where
  pub device_id : Text
  pub hostname : Text
  pub peer : Text
  pub tx : ℕ
  pub stop : ℕ

abbrev pub Rooms : Type 0
Rooms = Map Text (List Member)

abbrev pub new : Rooms
new = []

abbrev pub is_device : Text → Member → Bool
is_device d m = m.device_id == d

-- `get_mut(group_id)`, with no members for a group that has no room.
abbrev pub room : Text → Rooms → List Member
room gid r = elim (lookup gid r) [ none ↦ [] | some ms ↦ ms ]

-- `members.remove(i)` for the first `i` at which the device stands.
unfoldable pub detach : Text → List Member → Option (Member × List Member)
detach d [] = none
detach d (m ∷ ms) =
    let rest = detach d ms in
    if is_device d m
    then some (m, ms)
    else (elim rest [ none ↦ none | some found ↦ some (found.0, m ∷ found.1) ])

-- The members without the device's old session, and the channels to signal.
abbrev pub replaced : Text → List Member → List Member × List ℕ
replaced d ms = elim (detach d ms) [ none ↦ (ms, []) | some found ↦ (found.1, found.0.stop ∷ []) ]

unfoldable pub join : Rooms → Text → Member → Rooms × List ℕ
join r gid m =
    let out = replaced m.device_id (room gid r) in (insert gid (out.0 ++ (m ∷ [])) r, out.1)

-- With the queues that are closed, those of the members who leave.
unfoldable pub leave : Rooms → Text → Text → Rooms × List ℕ
leave r gid d = elim (lookup gid r) [
  | none ↦ (r, [])
  | some members ↦
      let left = keep (λ m. not (is_device d m)) members in
      let closed = map (λ m. m.tx) (keep (is_device d) members) in
      if is_empty left then (remove gid r, closed) else (insert gid left r, closed)
]

-- The frames that a queue holds at most.
abbrev pub queue_max : ℕ
queue_max = 16

-- The frames that are put into queues, where `queue_len` says how many frames a queue holds, and
-- for one that nobody reads any more that it is full; a full queue does not take the frame.
unfoldable pub broadcast : Rooms → (ℕ → ℕ) → Text → Text → Bytes → List (ℕ × Bytes)
broadcast r queue_len gid from payload = elim (lookup gid r) [
  | none ↦ []
  | some members ↦
      map (λ m. (m.tx, payload))
        (keep (λ m. ltb (queue_len m.tx) queue_max) (keep (λ m. not (is_device from m)) members))
]

-- The room without the session that was found in it.
abbrev pub kicked : Rooms → Text → Option (Member × List Member) → Rooms × List ℕ × Bool
kicked r gid none = (r, [], false)
kicked r gid (some found) = (insert gid found.1 r, found.0.stop ∷ [], true)

unfoldable pub kick : Rooms → Text → Text → Rooms × List ℕ × Bool
kick r gid d = elim (lookup gid r) [
  | none ↦ (r, [], false)
  | some members ↦ kicked r gid (detach d members)
]

unfoldable pub kick_group : Rooms → Text → Rooms × List ℕ
kick_group r gid = elim (lookup gid r) [
  | none ↦ (r, [])
  | some members ↦ (remove gid r, map (λ m. m.stop) members)
]

unfoldable pub snapshot : Rooms → Map Text ℕ
snapshot r = map (λ entry. (entry.0, length entry.1)) r

pub record LiveDevice : Type 0 where
  pub device_id : Text
  pub hostname : Text
  pub peer : Text

unfoldable pub members : Rooms → Map Text (List LiveDevice)
members r =
    map
      (λ entry. (
        entry.0,
        map (λ m. record { device_id = m.device_id; hostname = m.hostname; peer = m.peer }) entry.1,
      ))
      r
