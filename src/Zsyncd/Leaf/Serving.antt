-- ===== src/Zsyncd/Leaf/Serving.antt =====
-- The loop of `serve_leaf` (zsyncd.rs), after the acknowledgement of the join. `disabled` is the
-- body of the error frame that says so, and `queue_len` has the number of frames in each queue.
use zsync.Base.{
  if◌then◌else◌, Bytes, Text, text_eq, Result, nat_eq, ok, err, ℕ, Bool, true, false, Option, none,
  some, List, [], ◌++◌,
}
use zsync.Protocol.{ProtoError, io, broken, early_eof}
use zsync.Protocol.Reading.{Poll, waiting, ready, broken_off, poll}
use zsync.Relay.{
  RelayType, join, join_ack, payload, ping, pong, error, bye, write_frame, read_frame,
}
use zsync.Zsyncd.Groups.{Disk, get, is_enabled}
use zsync.Zsyncd.Rooms.{leave, broadcast}
use zsync.Zsyncd.Leaf.{Server}

-- The loop goes on, or has ended with its result.
pub data Stage : Type 0 where
  going finished : Stage
  broke : ProtoError → Stage

abbrev pub while_going {ℓ} : {A : Type ℓ} → Stage → A → A → A
while_going going a b = a
while_going finished a b = b
while_going (broke e) a b = b

pub record LeafSession : Type 0 where
  pub gid : Text
  pub device : Text
  pub tx : ℕ
  pub held : Bytes
  pub socket : Bytes
  pub written : Bytes
  pub stage : Stage

-- The branches of the `select!`; of the last one, what happens to the socket. The queue of the
-- session gives a payload, or nothing when its sender is gone.
pub data LeafEvent : Type 0 where
  stop_changed : Bool → LeafEvent
  tick : LeafEvent
  queued : Option Bytes → LeafEvent
  arrived : Bytes → LeafEvent
  hung_up : LeafEvent

-- The server, the session, and what is put into the queues of other sessions.
abbrev pub Served : Type 0
Served = Server × LeafSession × List (ℕ × Bytes)

-- And the queues that are closed by a session that ends.
abbrev pub Closed : Type 0
Closed = Server × LeafSession × List (ℕ × Bytes) × List ℕ

abbrev pub ends : LeafSession → Stage → LeafSession
ends s stage = record s { stage = stage }

-- A write, whose failure ends the loop; `writes` says whether the transport takes it.
unfoldable pub put : LeafSession → Bool → Result ProtoError Bytes → LeafSession
put s writes (err e) = ends s (broke e)
put s true (ok buf) = record s { written = s.written ++ buf }
put s false (ok buf) = ends s (broke (io broken))

-- Whether the group is still admitted, on a list that may be read again.
unfoldable pub still_enabled : Server → Disk → Text → Server × Bool
still_enabled srv disk gid =
    let (allow, g) = get srv.allow disk gid in (record srv { allow = allow }, is_enabled g)

unfoldable pub on_tick : Server → Disk → LeafSession → Bool → Served
on_tick srv disk s writes =
    let (srv', admitted) = still_enabled srv disk s.gid in
    (srv', (if admitted then put s writes (write_frame [] ping []) else ends s finished), [])

module _ (disabled : Bytes) (queue_len : ℕ → ℕ) where
  -- The error frame is sent as far as the transport takes it.
  unfoldable pub on_envelope : Server → Disk → LeafSession → Bytes → Bool → Served
  on_envelope srv disk s env writes =
      let (srv', admitted) = still_enabled srv disk s.gid in
      if admitted
      then (srv', s, broadcast srv'.rooms queue_len s.gid s.device env)
      else (srv', ends (put s writes (write_frame [] error disabled)) finished, [])

  unfoldable pub on_frame : Server → Disk → LeafSession → RelayType → Bytes → Bool → Served
  on_frame srv disk s payload body writes = on_envelope srv disk s body writes
  on_frame srv disk s ping body writes = (srv, put s writes (write_frame [] pong body), [])
  on_frame srv disk s pong body writes = (srv, s, [])
  on_frame srv disk s bye body writes = (srv, ends s finished, [])
  on_frame srv disk s error body writes = (srv, ends s finished, [])
  on_frame srv disk s join body writes = (srv, s, [])
  on_frame srv disk s join_ack body writes = (srv, s, [])

  unfoldable pub on_poll : Server → Disk → LeafSession → Poll (RelayType × Bytes) → Bool → Served
  on_poll srv disk s (waiting held) writes = (srv, record s { held = held; socket = [] }, [])
  on_poll srv disk s (ready frame rest) writes =
      on_frame srv disk (record s { held = []; socket = rest }) frame.0 frame.1 writes
  on_poll srv disk s (broken_off e) writes =
      (srv, ends (record s { held = []; socket = [] }) (broke e), [])

  -- One round of the loop. Every branch but the read drops the pending read.
  unfoldable pub round : Server → Disk → LeafSession → LeafEvent → Bool → Served
  round srv disk s (stop_changed stop) writes =
      (srv, (if stop then ends s finished else record s { held = [] }), [])
  round srv disk s tick writes = on_tick srv disk (record s { held = [] }) writes
  round srv disk s (queued (some env)) writes =
      (srv, put (record s { held = [] }) writes (write_frame [] payload env), [])
  round srv disk s (queued none) writes = (srv, ends s finished, [])
  round srv disk s (arrived bytes) writes =
      on_poll srv disk s (poll read_frame s.held (s.socket ++ bytes)) writes
  round srv disk s hung_up writes = (srv, ends s (broke (io early_eof)), [])

  -- When the loop has ended, the device leaves its room.
  unfoldable pub close : Served → Closed
  close (srv, s, out) =
      let left = leave srv.rooms s.gid s.device in
      while_going s.stage (srv, s, out, []) (record srv { rooms = left.0 }, s, out, left.1)

  -- A session that has ended does nothing more.
  unfoldable pub serve : Server → Disk → LeafSession → LeafEvent → Bool → Closed
  unfolding close
  serve srv disk s e writes =
      while_going s.stage (close (round srv disk s e writes)) (srv, s, [], [])
