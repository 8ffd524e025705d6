-- ===== src/Daemon/Joining/Admission.antt =====
-- A leaf that joins its group at the relay server.
use zsync.Base.{
  if◌then◌else◌, ◌&&◌, ◌==◌, length, any, any-append, Bytes, Text, text_eq, Result-cases, nat_eq,
  ok, err, ℕ, ◌≡◌, refl, ap, ◌∙◌, inl, inr, Bool, true, false, Option, none, some, List, [], ◌∷◌,
  ◌++◌, arith,
}
use zsync.Base.Words.{AreBytes}
use zsync.Protocol.{io, early_eof, hex_encode, Json}
use zsync.Protocol.Frame.{read_exact}
use zsync.Group.{group_id_len}
use zsync.Group.Ids.{parse_group_id-hex_encode}
use zsync.Relay.{join, join_ack, JoinAck, ErrorMsg, write_json, read_frame}
use zsync.Relay.Frames.{read_frame-write_json}
use zsync.Zsyncd.Groups.{Disk, canonical, get, is_enabled}
use zsync.Zsyncd.Rooms
use zsync.Zsyncd.Rooms.{Rooms, Member, is_device, room, replaced}
use zsync.Base.Map.{lookup, insert, lookup-insert, eq_refl}
use zsync.Zsyncd.Leaf.{JoinMsg, Server, Connection, Handshake, refuse, admit, join_group, handshake}
use zsync.Zsyncd.Leaf.Joining.{accepted, first_frame, answer_join, open_leaf}
use zsync.Daemon.Joining.{proto, join_message, on_answer, request_join}

-- Whatever is true of a member is true of one in its room, once it has joined.
join-any :
    (p : Member → Bool) (r : Rooms) (gid : Text) (m : Member)
    → p m ≡ true
    → any p (room gid (Rooms.join r gid m).0) ≡ true
unfolding Rooms.join
join-any p r gid m holds =
    ap (λ o. any p (elim o [ none ↦ [] | some ms ↦ ms ])) found
    ∙ any-append p old (m ∷ [])
    ∙ ground (arith, holds)
  where
    old : List Member
    old = (replaced m.device_id (room gid r)).0

    found : lookup gid (insert gid (old ++ (m ∷ [])) r) ≡ some (old ++ (m ∷ []))
    found = lookup-insert gid gid (old ++ (m ∷ [])) r ∙ rw (eq_refl gid) refl

module _ (codec : Json JoinMsg) (ack_codec : Json JoinAck) (error_codec : Json ErrorMsg)
    (srv : Server) (disk : Disk) (c : Connection) (now : ℕ) (gid : Bytes)
    (node_id hostname version : Text) (asks : Bytes) (bytes : AreBytes gid)
    (sixteen : length gid ≡ group_id_len)
    (asked : write_json codec join (join_message gid node_id hostname version) ≡ ok asks) where
  abbrev msg : JoinMsg
  msg = join_message gid node_id hostname version

  abbrev id : Text
  id = hex_encode gid

  -- The server, once it has read its list of groups.
  abbrev known : Server
  known = record srv { allow = (get srv.allow disk id).0 }

  abbrev is_on : Bool
  is_on = is_enabled (get srv.allow disk id).1

  canonical-id : canonical id ≡ ok id
  unfolding canonical
  canonical-id = rw (parse_group_id-hex_encode gid bytes sixteen, canonical) refl

  join_group-msg :
      join_group srv disk c msg now ≡ (if is_on then admit known c id msg else refuse known c now)
  unfolding join_group join_message
  join_group-msg = rw (canonical-id, join_group) refl

  handshake-asks :
      handshake codec.from_slice srv disk c (first_frame (asks ++ [])) now
      ≡ (if is_on then admit known c id msg else refuse known c now)
  unfolding handshake first_frame
  handshake-asks =
      let (body, parsed, read) = read_frame-write_json codec join msg asks [] asked in
      rw (read, first_frame, parsed) join_group-msg

  -- The connection behind the handshake.
  abbrev behind : Bool → Handshake → Server × List ℕ × Bytes × Option (Text × Text)
  behind writes out =
      let answer = answer_join ack_codec out.2 writes in (out.0, out.1, answer.0, answer.1)

  open_leaf-asks :
      (writes : Bool)
      → open_leaf codec ack_codec srv disk c (asks ++ []) now writes
        ≡ behind writes (if is_on then admit known c id msg else refuse known c now)
  unfolding open_leaf
  open_leaf-asks writes = ap (behind writes) handshake-asks

  answer_join-written :
      (acks : Bytes) (session : Text × Text)
      → write_json ack_codec join_ack accepted ≡ ok acks
      → answer_join ack_codec (some session) true ≡ (acks, some session)
  unfolding answer_join
  answer_join-written acks session answered = rw (answered, answer_join) refl

  answer_join-unwritten :
      (session : Text × Text) → answer_join ack_codec (some session) false ≡ ([], none)
  unfolding answer_join
  answer_join-unwritten session = elim (Result-cases (write_json ack_codec join_ack accepted)) [
    | inl (e, bad) ↦ rw (bad, answer_join) refl
    | inr (b, good) ↦ rw (good, answer_join) refl
  ]

  abbrev joining : Member
  joining = record {
    device_id = node_id;
    hostname = hostname;
    peer = c.peer;
    tx = c.tx;
    stop = c.stop;
  }

  -- A leaf asks the relay server to join an enabled group, and the request and the answer can be
  -- encoded and written. Then the leaf stands in the room of that group with the two channels of
  -- this connection, the server writes the answer and starts a session for the group and the leaf,
  -- and the leaf takes the answer, with no byte left over.
  pub join_accepted :
      (acks : Bytes)
      → write_json ack_codec join_ack accepted ≡ ok acks
      → is_on ≡ true
      → let out = open_leaf codec ack_codec srv disk c (asks ++ []) now true in
        (any (λ m. is_device node_id m && m.tx == c.tx && m.stop == c.stop) (room id out.0.rooms)
          ≡ true)
        × (out.2 ≡ acks)
        × (out.3 ≡ some (id, node_id))
        × (request_join codec ack_codec error_codec msg (acks ++ []) true ≡ (asks, ok []))
  unfolding request_join admit join_message
  join_accepted acks answered on =
      let (body, parsed, read) =
        read_frame-write_json ack_codec join_ack accepted acks [] answered in
      let admitted = admit known c id msg in
      let same : open_leaf codec ack_codec srv disk c (asks ++ []) now true
          ≡ (admitted.0, admitted.1, acks, some (id, node_id)) =
        open_leaf-asks true
        ∙ rw on (
            ap (λ a. (admitted.0, admitted.1, a.0, a.1))
              (answer_join-written acks (id, node_id) answered)) in
      (
        ap
              (λ o.
                any (λ m. is_device node_id m && m.tx == c.tx && m.stop == c.stop)
                  (room id o.0.rooms))
              same
            ∙ join-any (λ m. is_device node_id m && m.tx == c.tx && m.stop == c.stop) srv.rooms id
                joining itself,
        ap (λ o. o.2) same,
        ap (λ o. o.3) same,
        rw (asked, request_join, read) (ap (λ r. (asks, r)) (rw (parsed, on_answer) refl)),
      )
    where
      itself : (node_id == node_id && c.tx == c.tx && c.stop == c.stop) ≡ true
      itself = ground (arith, eq_refl node_id)

  -- A leaf asks the relay server to join a group that is disabled or unknown, and the request can be
  -- encoded and written. Then the server closes the connection without a word, counts a failure of
  -- the address, and lets nobody in, and the leaf finds the end of the connection.
  pub join_refused :
      is_on ≡ false
      → (open_leaf codec ack_codec srv disk c (asks ++ []) now true
          ≡ ((refuse known c now).0, [], [], none))
        × (request_join codec ack_codec error_codec msg [] true
            ≡ (asks, err (proto (io early_eof))))
  unfolding request_join refuse answer_join read_frame read_exact
  join_refused off = (open_leaf-asks true ∙ rw off refl, rw (asked, request_join) refl)

  -- A leaf asks the relay server to join an enabled group, and the answer cannot be written. Then no
  -- session starts, but the leaf stands in the room of that group.
  pub unanswered_join_stays :
      is_on ≡ true
      → let out = open_leaf codec ack_codec srv disk c (asks ++ []) now false in
        (out.3 ≡ none) × (any (is_device node_id) (room id out.0.rooms) ≡ true)
  unfolding admit join_message
  unanswered_join_stays on =
      let admitted = admit known c id msg in
      let same : open_leaf codec ack_codec srv disk c (asks ++ []) now false
          ≡ (admitted.0, admitted.1, [], none) =
        open_leaf-asks false
        ∙ rw on
            (ap (λ a. (admitted.0, admitted.1, a.0, a.1)) (answer_join-unwritten (id, node_id))) in
      (
        ap (λ o. o.3) same,
        ap (λ o. any (is_device node_id) (room id o.0.rooms)) same
            ∙ join-any (is_device node_id) srv.rooms id joining (eq_refl node_id),
      )
