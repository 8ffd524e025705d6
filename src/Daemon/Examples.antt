-- ===== src/Daemon/Examples.antt =====
-- Sessions between two nodes, of which one sends the greeting.
use zsync.Protocol.Mime.{detect_mime}
use zsync.Base.{
  if◌then◌else◌, eqb, length, take, replicate, is_empty, Bytes, Text, codes, text_eq, nat_eq, ok,
  err, ℕ, ◌≡◌, refl, ap, ◌≢◌, Bool, true, false, Option, none, some, [], ◌∷◌, ◌++◌, arith,
}
use zsync.Base.Words.{u16_be}
use zsync.Protocol.{
  io, early_eof, clip, ping, Hello, ClipMeta, ClipAck, Json, hash, hex_encode, magic,
}
use zsync.Protocol.Frame.{encode_frame, read_frame, read_exact}
use zsync.Protocol.Frame.Header.{framed}
use zsync.Protocol.Clips.{encode_clip, encode_clip_body, verify_clip}
use zsync.Protocol.Clips.RoundTrip.{sized}
use zsync.Protocol.Examples.{digest, write_meta, codec, via}
use zsync.Clipboard.Memory.{Memory, empty_memory, memory}
use zsync.Suppress.Seen.{accept, default}
use zsync.State.{open_state}
use zsync.Base.Map.{lookup}
use zsync.Hub.{Hub, Outbound, new, already_present, local_observed}
use zsync.Hub.Apply.{IsNews, item_of}
use zsync.Hub.Examples.{board, laptop, shown, own, sent_own, shown-hash}
use zsync.Group.{seal}
use zsync.Group.Examples.{id, zeros, plain, aead_key, nonce}
use zsync.Group.Envelopes.{fields}
use zsync.Relay
use zsync.Relay.Frames.{relayed}
use zsync.Daemon.Session.{Session, running, Event, tick, received, arrived, message, step}
use zsync.Daemon.Session.Chunks.{cut_frame_lost}
use zsync.Daemon.Session.Delivery.{copied_item_arrives}
use zsync.Daemon.RelaySession.{RelaySession, seal_clip}
use zsync.Daemon.RelaySession
use zsync.Daemon.RelaySession.Delivery.{relayed_clip_arrives}

abbrev pub flag : Bool → ℕ
flag true = 1
flag false = 0

pub flag-eqb : (b : Bool) → eqb (flag b) 1 ≡ b
flag-eqb true = refl
flag-eqb false = refl

unfoldable ack_codec : Json ClipAck
ack_codec =
    via codec
      (λ a. record {
        origin_id = a.hash;
        seq = flag a.ok_flag;
        mime = a.reason;
        hash = [];
        size = 0;
        name = [];
      })
      (λ m. record { hash = m.origin_id; ok_flag = eqb m.seq 1; reason = m.mime })
      (λ a. ap (λ b. record a { ok_flag = b }) (flag-eqb a.ok_flag))

abbrev pub hello_meta : Hello → ClipMeta
hello_meta h = record {
  origin_id = h.node_id;
  seq = flag h.headless;
  mime = h.hostname;
  hash = h.os;
  size = h.max_bytes;
  name = h.version;
}

unfoldable pub hello_codec : Json Hello
hello_codec =
    via codec hello_meta
      (λ m. record {
        node_id = m.origin_id;
        hostname = m.mime;
        os = m.hash;
        headless = eqb m.seq 1;
        version = m.name;
        max_bytes = m.size;
      })
      (λ h. ap (λ b. record h { headless = b }) (flag-eqb h.headless))

abbrev pub greeting : Hello
greeting = record {
  node_id = codes "tv";
  hostname = codes "tv";
  os = codes "linux";
  headless = true;
  version = codes "1";
  max_bytes = 10;
}

abbrev tv : Hub Memory
tv = new (codes "tv") empty_memory (open_state none) 5000

abbrev session_of : Hub Memory → Session Memory
session_of hub = record {
  hub = hub;
  held = [];
  socket = [];
  written = [];
  last_sync = none;
  progress = running;
}

abbrev next : Option Text → Session Memory → Event → Session Memory
next peer_id s e = step board digest codec ack_codec hello_codec greeting peer_id s e 100 true

abbrev ping_bytes : Bytes
ping_bytes = framed ping (codes "hi")

encode_ping : encode_frame ping (codes "hi") ≡ ok ping_bytes
unfolding encode_frame
encode_ping = refl

short : read_frame (take 5 ping_bytes) ≡ err (io early_eof)
unfolding read_frame read_exact
short = refl

cut_frame_lost_example :
    next none (next none (session_of tv) (arrived (take 5 ping_bytes))) tick
    ≡ next none (session_of tv) tick
unfolding magic
cut_frame_lost_example =
    cut_frame_lost board digest codec ack_codec hello_codec greeting none (session_of tv) ping
      (codes "hi") ping_bytes 5 tick 100 100 true refl refl refl encode_ping (omega arith) refl

abbrev own_body : Bytes
own_body = u16_be (length (write_meta own.meta)) ++ (write_meta own.meta ++ codes "hello")

encode_own : encode_clip codec own ≡ ok (framed clip own_body)
unfolding encode_clip encode_frame encode_clip_body codec write_meta
encode_own = refl

fresh : (accept tv.seen (codes "laptop") 1).1 ≡ true
unfolding accept new default lookup
fresh = refl

missing : already_present board digest tv (codes "05") ≡ false
unfolding already_present memory new
missing = refl

given : is_empty (hash digest shown.content) ≡ false
unfolding hash hex_encode
given = refl

foreign : own.meta.origin_id ≢ tv.node_id
unfolding new
foreign h = ground arith

copied_item_arrives_example :
    let out : Outbound = record { clip = own; skip = none } in
    ((local_observed board digest laptop shown 100 true).0.sent ≡ laptop.sent ++ out ∷ [])
    × ((next (some (codes "tv")) (session_of laptop) (received (message out))).written
        ≡ [] ++ framed clip own_body)
    × ((next (some (codes "laptop")) (session_of tv) (arrived (framed clip own_body))).hub.clipboard
        ≡ (board.set tv.clipboard (item_of own)).0)
    × (own.content ≡ shown.content)
    × (own.meta.name ≡ shown.name)
    × (own.meta.mime ≡ (if is_empty shown.mime then detect_mime shown.content else shown.mime))
copied_item_arrives_example =
    copied_item_arrives board board digest codec ack_codec hello_codec greeting greeting
      (some (codes "tv")) (some (codes "laptop")) laptop shown 100 100 100 true true own
      (framed clip own_body) (session_of laptop) (session_of tv) sent_own shown-hash given
      encode_own refl refl refl refl foreign fresh missing

abbrev relay_session : Hub Memory → RelaySession Memory
relay_session hub = record { session = session_of hub; counter = 0 }

abbrev envelope : Bytes
envelope = 1 ∷ fields id nonce (zeros ++ own_body) 1

seal_own :
    seal_clip board digest codec plain aead_key (codes "secret") id id own 1 nonce ≡ ok envelope
unfolding seal_clip seal plain encode_clip_body codec write_meta
seal_own = refl

relay_own : Relay.write_frame [] Relay.payload envelope ≡ ok (relayed Relay.payload envelope)
unfolding Relay.write_frame write_meta
relay_own = refl

news : IsNews board digest tv (sized own)
unfolding new verify_clip hash hex_encode
news = record { verified = verified; foreign = foreign; fresh = fresh }
  where
    verified : verify_clip digest (sized own) ≡ ok tt
    verified = refl

relayed_clip_arrives_example :
    let out : Outbound = record { clip = own; skip = none } in
    ((RelaySession.step board digest codec plain aead_key
        (codes "secret")
        id
        id
        (relay_session laptop)
        (received (message out))
        100
        nonce
        true).session.written
      ≡ [] ++ relayed Relay.payload envelope)
    × ((RelaySession.step board digest codec plain aead_key
          (codes "secret")
          id
          (replicate 16 7)
          (relay_session tv)
          (arrived (relayed Relay.payload envelope))
          100
          nonce
          true).session.hub.clipboard
        ≡ (board.set tv.clipboard (item_of own)).0)
relayed_clip_arrives_example =
    relayed_clip_arrives board board digest codec plain aead_key (codes "secret") id id
      (replicate 16 7) own envelope (relayed Relay.payload envelope) nonce 100 100 nonce true
      (relay_session laptop) (relay_session tv) seal_own relay_own refl refl refl refl refl refl
      news missing
