-- ===== src/Zsyncd/Leaf/Leaving.antt =====
-- What a session that was replaced by a newer one of its device does on its way out (zsyncd.rs).
use zsync.Base.{any, Bytes, text_eq, nat_eq, ℕ, ◌≡◌, ap, ◌∙◌, Bool, true, false, none, [], ◌∷◌}
use zsync.Zsyncd.Groups.{Disk}
use zsync.Zsyncd.Rooms.{Member, is_device, room, join, leave}
use zsync.Zsyncd.Rooms.Sessions.{Unique}
use zsync.Zsyncd.Rooms.Devices.{late_leave}
use zsync.Zsyncd.Leaf.{Server}
use zsync.Zsyncd.Leaf.Serving.{
  finished, going, LeafSession, stop_changed, queued, round, close, serve,
}
use zsync.Zsyncd.Leaf.Forwarding.{served}

module _ (disabled : Bytes) (queue_len : ℕ → ℕ) where
  stopped_leaves :
      (srv : Server) (disk : Disk) (s : LeafSession) (writes : Bool)
      → s.stage ≡ going
      → let out = serve disabled queue_len srv disk s (stop_changed true) writes in
        let left = leave srv.rooms s.gid s.device in (out.0.rooms ≡ left.0) × (out.3 ≡ left.1)
  unfolding round close
  stopped_leaves srv disk s writes on =
      let same = served disabled queue_len srv disk s (stop_changed true) writes on in
      (ap (λ o. o.0.rooms) same, ap (λ o. o.3) same)

  queue_closed_ends :
      (srv : Server) (disk : Disk) (s : LeafSession) (writes : Bool)
      → s.stage ≡ going
      → (serve disabled queue_len srv disk s (queued none) writes).1.stage ≡ finished
  unfolding round close
  queue_closed_ends srv disk s writes on =
      ap (λ o. o.1.stage) (served disabled queue_len srv disk s (queued none) writes on)

module _ (disabled : Bytes) (queue_len later_len : ℕ → ℕ) where
  -- A session of a device joins a group, and then another session of the same device does, of
  -- which `s` and `n` are the loops. The second join signals the first session alone to stop; but
  -- when `s` reads the signal, it leaves under the name of the device and not of the session: it
  -- closes the queue of `n`, and the group has no member of that device. And `n` ends when it finds
  -- its queue closed.
  pub late_leave_drops_new_session :
      (srv later : Server) (disk later_disk : Disk) (old new : Member) (s n : LeafSession)
      (writes : Bool)
      → Unique (room s.gid srv.rooms)
      → old.device_id ≡ s.device
      → new.device_id ≡ s.device
      → new.tx ≡ n.tx
      → s.stage ≡ going
      → n.stage ≡ going
      → let joined = join (join srv.rooms s.gid old).0 s.gid new in
        let out =
          serve disabled queue_len
            (record srv { rooms = joined.0 })
            disk
            s
            (stop_changed true)
            writes in
        (joined.1 ≡ old.stop ∷ [])
        × (out.3 ≡ n.tx ∷ [])
        × (any (is_device s.device) (room s.gid out.0.rooms) ≡ false)
        × ((serve disabled later_len later later_disk n (queued none) writes).1.stage ≡ finished)
  late_leave_drops_new_session srv later disk later_disk old new s n writes u first second queue on
        on' =
      let (stopped, closed, gone) = late_leave srv.rooms s.gid s.device old new u first second in
      let joined = (join (join srv.rooms s.gid old).0 s.gid new).0 in
      let (rooms, left) =
        stopped_leaves disabled queue_len (record srv { rooms = joined }) disk s writes on in
      (
        stopped,
        left ∙ closed ∙ ap (λ t. t ∷ []) queue,
        ap (λ r. any (is_device s.device) (room s.gid r)) rooms ∙ gone,
        queue_closed_ends disabled later_len later later_disk n writes on',
      )
