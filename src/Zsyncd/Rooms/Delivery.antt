-- ===== src/Zsyncd/Rooms/Delivery.antt =====
-- Which queues a broadcast reaches.
use zsync.Base.{
  ltb, keep, Option-cases, Bytes, Text, text_eq, nat_eq, ℕ, ◌≡◌, refl, inl, inr, List, map,
}
use zsync.Base.Map.{lookup}
use zsync.Zsyncd.Rooms.{Member, Rooms, room, queue_max, broadcast}
use zsync.Zsyncd.Rooms.Sessions.{others}

-- The payload, for the queues that have room, of the members who are not the device `from`.
abbrev pub offers : (ℕ → ℕ) → Text → Bytes → List Member → List (ℕ × Bytes)
offers queue_len from payload ms =
    map (λ m. (m.tx, payload)) (keep (λ m. ltb (queue_len m.tx) queue_max) (others from ms))

pub broadcast-room :
    (r : Rooms) (queue_len : ℕ → ℕ) (gid from : Text) (payload : Bytes)
    → broadcast r queue_len gid from payload ≡ offers queue_len from payload (room gid r)
unfolding broadcast
broadcast-room r queue_len gid from payload = elim (Option-cases (lookup gid r)) [
  | inl e ↦ rw (broadcast, room, e) refl
  | inr (ms, e) ↦ rw (broadcast, room, e) refl
]
