-- ===== src/Zsyncd/Admin/Kicks.antt =====
-- What a kick of a group or of a device does.
use zsync.Base.{
  if◌then◌else◌, Option-cases, any, keep, Text, codes, text_eq, ◌==◌, nat_eq, ℕ, ◌≡◌, refl, sym, ap,
  ◌∙◌, subst, inl, inr, Bool, true, false, Option, none, some, List, [], ◌∷◌, map, arith,
}
use zsync.Base.Map.{lookup}
use zsync.Zsyncd.Rooms.{Member, Rooms, is_device, room, kick, kick_group, kicked, detach, replaced}
use zsync.Zsyncd.Rooms.Sessions.{Unique, others, room-kick, room-kick_group, replaced-keep}
use zsync.Zsyncd.Admin.{admin_kick, dispatch_admin}

kick_group_stops : (r : Rooms) (g : Text) → (kick_group r g).1 ≡ map (λ m. m.stop) (room g r)
unfolding kick_group
kick_group_stops r g = elim (Option-cases (lookup g r)) [
  | inl e ↦ rw (kick_group, room, e) refl
  | inr (ms, e) ↦ rw (kick_group, room, e) refl
]

-- A request to kick the group `g` is answered positively. It stops every session of the group's
-- room, in order, and empties that room; every other room keeps its sessions.
pub dispatch_admin-kick_group :
    (r : Rooms) (pid port : ℕ) (g j : Text) (d : Option Text)
    → let out =
        dispatch_admin r pid port
          (record { action = codes "kick_group"; group_id = some g; device_id = d }) in
      (out.2.ok_flag ≡ true)
      × (out.1 ≡ map (λ m. m.stop) (room g r))
      × (room j out.0 ≡ (if g == j then [] else room j r))
unfolding dispatch_admin
dispatch_admin-kick_group r pid port g j d = (refl, kick_group_stops r g, room-kick_group r g j)

abbrev is_some : Option (Member × List Member) → Bool
is_some none = false
is_some (some found) = true

any-detach : (d : Text) (ms : List Member) → any (is_device d) ms ≡ is_some (detach d ms)
unfolding detach
any-detach d [] = refl
any-detach d (m ∷ ms) = elim (Option-cases (detach d ms)) [
  | inl e ↦ ground (arith, any-detach d ms)
  | inr (found, e) ↦ ground (arith, any-detach d ms)
]

stops-kicked :
    (r : Rooms) (g d : Text) (ms : List Member)
    → ((kicked r g (detach d ms)).1 ≡ (replaced d ms).1)
      × ((kicked r g (detach d ms)).2 ≡ is_some (detach d ms))
stops-kicked r g d ms = elim (Option-cases (detach d ms)) [
  | inl e ↦ rw (replaced, e) (refl, refl)
  | inr (found, e) ↦ rw (replaced, e) (refl, refl)
]

kick_stops :
    (r : Rooms) (g d : Text)
    → Unique (room g r)
    → ((kick r g d).1 ≡ map (λ m. m.stop) (keep (is_device d) (room g r)))
      × ((kick r g d).2 ≡ any (is_device d) (room g r))
unfolding kick
kick_stops r g d u = elim (Option-cases (lookup g r)) [
  | inl e ↦ rw (kick, room, e) (refl, refl)
  | inr (ms, e) ↦
      let unique : Unique ms = subst (λ o. Unique (elim o [ none ↦ [] | some ns ↦ ns ])) e u in
      rw (kick, room, e)
        (
          (stops-kicked r g d ms).0 ∙ ap (λ p. p.1) (replaced-keep d ms unique),
          (stops-kicked r g d ms).1 ∙ sym (any-detach d ms),
        )
]

-- Where no device has two sessions in the group, a request to kick a device is answered positively
-- if and only if the device is in the room. It stops the session of the device, if there is one,
-- and takes it out of the room, and no other session out of any room.
pub dispatch_admin-kick :
    (r : Rooms) (pid port : ℕ) (g d j : Text)
    → Unique (room g r)
    → let out =
        dispatch_admin r pid port
          (record { action = codes "kick"; group_id = some g; device_id = some d }) in
      (out.2.ok_flag ≡ any (is_device d) (room g r))
      × (out.1 ≡ map (λ m. m.stop) (keep (is_device d) (room g r)))
      × (room j out.0 ≡ (if g == j then others d (room g r) else room j r))
unfolding dispatch_admin admin_kick
dispatch_admin-kick r pid port g d j u =
    ((kick_stops r g d u).1, (kick_stops r g d u).0, room-kick r g j d u)
