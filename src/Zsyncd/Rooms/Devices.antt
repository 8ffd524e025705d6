-- ===== src/Zsyncd/Rooms/Devices.antt =====
-- The devices of a group, after any operations on the rooms.
use zsync.Base.{
  if◌then◌else◌, any, keep, Text, text_beq_iff, text_eq, ◌==◌, nat_eq, ◌≡◌, refl, sym, ap, ◌∙◌,
  subst, Bool, true, false, List, [], ◌∷◌, ◌++◌, map, arith,
}
use zsync.Base.Map.{lookup, eq_refl}
use zsync.Zsyncd.Rooms.{Member, Rooms, new, is_device, room, join, leave, kick, kick_group}
use zsync.Zsyncd.Rooms.Sessions.{
  Unique, keep-Unique, append-Unique, keep-gone, others, replaced-keep, room-join, room-leave,
  leave-closed, room-kick, room-kick_group,
}

pub data RoomOp : Type 0 where
  joining : Text → Member → RoomOp
  leaving : Text → Text → RoomOp
  kicking : Text → Text → RoomOp
  kicking_group : Text → RoomOp

unfoldable pub perform : Rooms → RoomOp → Rooms
perform r (joining gid m) = (join r gid m).0
perform r (leaving gid d) = (leave r gid d).0
perform r (kicking gid d) = (kick r gid d).0
perform r (kicking_group gid) = (kick_group r gid).0

unfoldable pub perform_all : Rooms → List RoomOp → Rooms
perform_all r [] = r
perform_all r (op ∷ ops) = perform_all (perform r op) ops

if-Unique : (b : Bool) (xs ys : List Member) → Unique xs → Unique ys → Unique (if b then xs else ys)
if-Unique true xs ys u v = u
if-Unique false xs ys u v = v

perform-Unique :
    (r : Rooms) (op : RoomOp)
    → ((j : Text) → Unique (room j r))
    → (j : Text) → Unique (room j (perform r op))
unfolding perform
perform-Unique r (joining gid m) u j = rw (room-join r gid j m (u gid)) (
    if-Unique (gid == j) _ _
      (append-Unique (others m.device_id (room gid r)) m (keep-Unique _ _ (u gid))
        (keep-gone m.device_id (room gid r)))
      (u j))
perform-Unique r (leaving gid d) u j =
    rw (room-leave r gid j d) (if-Unique (gid == j) _ _ (keep-Unique _ _ (u gid)) (u j))
perform-Unique r (kicking gid d) u j =
    rw (room-kick r gid j d (u gid)) (if-Unique (gid == j) _ _ (keep-Unique _ _ (u gid)) (u j))
perform-Unique r (kicking_group gid) u j =
    rw (room-kick_group r gid j) (if-Unique (gid == j) _ _ tt (u j))

all-Unique :
    (r : Rooms) (ops : List RoomOp)
    → ((j : Text) → Unique (room j r))
    → (j : Text) → Unique (room j (perform_all r ops))
unfolding perform_all
all-Unique r [] u = u
all-Unique r (op ∷ ops) u = all-Unique (perform r op) ops (perform-Unique r op u)

-- After any sequence of joins, leaves and kicks from the empty rooms, no group has two sessions of
-- one device.
pub rooms-Unique : (ops : List RoomOp) (gid : Text) → Unique (room gid (perform_all new ops))
unfolding lookup
rooms-Unique ops gid = all-Unique new ops (λ j. tt) gid

keep-last :
    (d : Text) (ms : List Member) (m : Member)
    → any (is_device d) ms ≡ false
    → m.device_id ≡ d
    → keep (is_device d) (ms ++ (m ∷ [])) ≡ m ∷ []
keep-last d [] m h same = rw ((text_beq_iff m.device_id d).1 same) refl
keep-last d (x ∷ ms) m h same = ground (arith, keep-last d ms m)

join-here :
    (r : Rooms) (gid : Text) (m : Member)
    → Unique (room gid r)
    → room gid (join r gid m).0 ≡ others m.device_id (room gid r) ++ (m ∷ [])
join-here r gid m u = room-join r gid gid m u ∙ (rw (eq_refl gid) refl)

join-Unique :
    (r : Rooms) (gid : Text) (m : Member) → Unique (room gid r) → Unique (room gid (join r gid m).0)
join-Unique r gid m u =
    rw (join-here r gid m u)
      (append-Unique _ m (keep-Unique _ _ u) (keep-gone m.device_id (room gid r)))

others-gone : (a b : Text) (ms : List Member) → a ≡ b → any (is_device b) (others a ms) ≡ false
others-gone a b ms same = subst (λ d. any (is_device d) (others a ms) ≡ false) same (keep-gone a ms)

-- A join over a session that has just joined as the same device.
join_again_stops :
    (r : Rooms) (gid : Text) (old m : Member)
    → Unique (room gid r)
    → old.device_id ≡ m.device_id
    → (join (join r gid old).0 gid m).1 ≡ old.stop ∷ []
unfolding join
join_again_stops r gid old m u same =
    ap (λ p. p.1)
      (replaced-keep m.device_id (room gid (join r gid old).0) (join-Unique r gid old u))
    ∙ ap (λ ms. map (λ n. n.stop) (keep (is_device m.device_id) ms)) (join-here r gid old u)
    ∙ ap (map (λ n. n.stop)) (
        keep-last m.device_id (others old.device_id (room gid r)) old
          (others-gone old.device_id m.device_id (room gid r) same) same)

-- Two sessions of a device join a group, and then the first leaves under the device's name.
pub late_leave :
    (r : Rooms) (gid d : Text) (old m : Member)
    → Unique (room gid r)
    → old.device_id ≡ d
    → m.device_id ≡ d
    → let joined = join (join r gid old).0 gid m in
      let left = leave joined.0 gid d in
      (joined.1 ≡ old.stop ∷ [])
      × (left.1 ≡ m.tx ∷ [])
      × (any (is_device d) (room gid left.0) ≡ false)
late_leave r gid d old m u first second =
    let before = (join r gid old).0 in
    let joined = (join before gid m).0 in
    (
      join_again_stops r gid old m u (first ∙ sym second),
      leave-closed joined gid d
          ∙ ap (λ ms. map (λ n. n.tx) (keep (is_device d) ms))
              (join-here before gid m (join-Unique r gid old u))
          ∙ ap (map (λ n. n.tx)) (
              keep-last d (others m.device_id (room gid before)) m
                (others-gone m.device_id d (room gid before) second) second),
      rw (room-leave joined gid gid d, eq_refl gid) (others-gone d d (room gid joined) refl),
    )
