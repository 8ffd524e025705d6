-- ===== src/Daemon/Greeting.antt =====
-- The greetings that open a session between two nodes (daemon.rs): `run_tcp_init` of the one that
-- dials, and the beginning of `run_incoming`. `socket` has the bytes that the other side sends
-- before it closes; `writes` says whether the transport takes a write.
pub mod Meeting
mod Examples
use zsync.Base.{
  ltb, leb, eqb, if◌then◌else◌, ltb→lt, lt→ltb, le→ltb, leb→le, eqb_iff, Bool-cases, Option-cases,
  length, get_or, take, drop, replicate, is_empty, any, all, keep, All, length-append, length-drop,
  length-take, take-append, drop-append, take-append-drop, take-length, any-append, length-keep-le,
  Bytes, Text, codes, text_beq, text_beq_iff, text_eq, starts_with, utf8_width, text_len, ◌>>=◌,
  ◌>>◌, fail_if, or_fail, Result-cases, Result, Eq, ◌==◌, nat_eq, ok, err, ℕ, zero, suc, ◌+◌, ◌-◌,
  ◌*◌, ◌/◌, ◌%◌, ◌^◌, ◌≤◌, ◌<◌, min, max, ◌≡◌, refl, sym, ap, ap₂, ◌∙◌, subst, ◌≢◌, ◌↔◌, ◌⊎◌, inl,
  inr, Bool, true, false, not, ◌&&◌, ◌||◌, Option, none, some, List, [], ◌∷◌, ◌++◌, map,
  append_assoc, append-nil, arith,
}
use zsync.Protocol.{ProtoError, io, broken, FrameType, hello, hello_ack, Hello, Json}
use zsync.Protocol.Frame.{encode_json, read_frame}
use zsync.Daemon.Table.{PeerStatus, Runtime}
use zsync.Daemon.Table.Live.{World, member, run_incoming}

pub data GreetError : Type 0 where
  proto : ProtoError → GreetError
  unexpected : FrameType → GreetError
  bad_json : GreetError

abbrev pub is_hello : FrameType → Bool
is_hello hello = true
is_hello _ = false

abbrev pub is_hello_ack : FrameType → Bool
is_hello_ack hello_ack = true
is_hello_ack _ = false

-- The bytes that were written, and the greeting of the other side with the bytes behind it.
abbrev pub Greeted : Type 0
Greeted = Bytes × Result GreetError (Hello × Bytes)

-- What becomes of a connection that comes in.
pub data Opening : Type 0 where
  failed : GreetError → Opening
  declined : Opening
  opened : Hello → Bytes → Opening

abbrev pub connected : PeerStatus → Hello → PeerStatus
connected s remote = record s {
  state = codes "connected";
  remote_node = some remote.node_id;
  remote_host = some remote.hostname;
  last_error = none;
}

module _ (codec : Json Hello) (greeting : Hello) where
  -- A write of the greeting, behind the bytes that were written before.
  unfoldable pub write_hello : Bytes → FrameType → Bool → Result GreetError Bytes
  write_hello sent typ writes = elim (encode_json codec typ greeting) [
    | err e ↦ err (proto e)
    | ok b ↦ if writes then ok (sent ++ b) else err (proto (io broken))
  ]

  -- The next frame, if its type is accepted, and the greeting in it.
  unfoldable pub read_hello :
      (FrameType → Bool) → Bytes → Result GreetError (FrameType × Hello × Bytes)
  read_hello accepts socket = elim (read_frame socket) [
    | err e ↦ err (proto e)
    | ok (frame, rest) ↦
        if not (accepts frame.0)
        then err (unexpected frame.0)
        else (elim (codec.from_slice frame.1) [
          | none ↦ err bad_json
          | some remote ↦ ok (frame.0, remote, rest)
        ])
  ]

  -- A peer that greets, in place of an answer, is answered.
  unfoldable pub answer_hello : Bytes → FrameType → Hello → Bytes → Bool → Greeted
  unfolding write_hello
  answer_hello sent typ remote rest writes =
      if not (is_hello typ)
      then (sent, ok (remote, rest))
      else (elim (write_hello sent hello_ack writes) [
        | err e ↦ (sent, err e)
        | ok sent' ↦ (sent', ok (remote, rest))
      ])

  unfoldable pub run_tcp_init : PeerStatus → Bytes → Bool → Bool → PeerStatus × Greeted
  unfolding write_hello read_hello answer_hello
  run_tcp_init status socket writes answers = elim (write_hello [] hello writes) [
    | err e ↦ (status, ([], err e))
    | ok sent ↦ elim (read_hello (λ t. is_hello t || is_hello_ack t) socket) [
      | err e ↦ (status, (sent, err e))
      | ok (typ, remote, rest) ↦
          (connected status remote, answer_hello sent typ remote rest answers)
    ]
  ]

  -- A node that has a session with the peer already closes the connection without a word.
  unfoldable pub accept_greeting :
      {B : Type 0} → World B → Text → Bytes → Bool → World B × Bytes × Opening
  unfolding write_hello read_hello
  accept_greeting w uri socket writes = elim (read_hello is_hello socket) [
    | err e ↦ (w, [], failed e)
    | ok (typ, remote, rest) ↦
        if member remote.node_id w.runtime.live
        then (w, [], declined)
        else (elim (write_hello [] hello_ack writes) [
          | err e ↦ (run_incoming w remote uri false, [], failed e)
          | ok sent ↦ (run_incoming w remote uri true, sent, opened remote rest)
        ])
  ]
