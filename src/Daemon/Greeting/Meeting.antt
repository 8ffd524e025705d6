-- ===== src/Daemon/Greeting/Meeting.antt =====
-- Two nodes greet one another.
use zsync.Base.{
  Option-cases, Bytes, Text, text_eq, nat_eq, ok, err, ◌≡◌, refl, inl, inr, Bool, true, false, ◌||◌,
  some, none, codes, ap, ◌∙◌, ◌∷◌, [], ◌++◌, arith,
}
use zsync.Protocol.{io, early_eof, FrameType, hello, hello_ack, Hello, Json}
use zsync.Protocol.Frame.{encode_json, read_frame, read_exact}
use zsync.Protocol.Frame.Header.{read_frame-encode_frame}
use zsync.Daemon.Table.{PeerStatus}
use zsync.Daemon.Table.Live.{World, member, run_incoming, answered_claims}
use zsync.Daemon.Greeting.{
  proto, is_hello, is_hello_ack, declined, opened, connected, write_hello, read_hello, answer_hello,
  run_tcp_init, accept_greeting,
}

-- A frame of a value is read back with the value's bytes.
read_frame-encode_json :
    {A : Type 0} (codec : Json A) (typ : FrameType) (v : A) (frame rest : Bytes)
    → encode_json codec typ v ≡ ok frame
    → (body : Bytes) × (codec.from_slice body ≡ some v)
      × (read_frame (frame ++ rest) ≡ ok ((typ, body), rest))
unfolding encode_json
read_frame-encode_json codec typ v frame rest h = elim (Option-cases (codec.to_vec v)) [
  | inl none_there ↦ absurd (ground (arith, none_there))
  | inr (body, e) ↦ (
    body,
    codec.from_slice-to_vec v body e,
    read_frame-encode_frame typ body frame rest (rw e at h),
  )
]

read_hello-encode_json :
    (codec : Json Hello) (mine theirs : Hello) (accepts : FrameType → Bool) (typ : FrameType)
    (frame rest : Bytes)
    → encode_json codec typ theirs ≡ ok frame
    → accepts typ ≡ true
    → read_hello codec mine accepts (frame ++ rest) ≡ ok (typ, theirs, rest)
unfolding read_hello
read_hello-encode_json codec mine theirs accepts typ frame rest h accepted =
    let (body, parsed, read) = read_frame-encode_json codec typ theirs frame rest h in
    rw (read, read_hello, accepted, parsed) refl

write_hello_done :
    (codec : Json Hello) (mine : Hello) (typ : FrameType) (frame : Bytes)
    → encode_json codec typ mine ≡ ok frame
    → write_hello codec mine [] typ true ≡ ok frame
unfolding write_hello
write_hello_done codec mine typ frame h = rw (h, write_hello) refl

module _ {B : Type 0} (codec : Json Hello) (here there : Hello) (w : World B) (uri : Text)
    (status : PeerStatus) (asks answers : Bytes) (asked : encode_json codec hello here ≡ ok asks)
    (answered : encode_json codec hello_ack there ≡ ok answers) where
  greetings_meet :
      member here.node_id w.runtime.live ≡ false
      → (accept_greeting codec there w uri (asks ++ []) true
          ≡ (run_incoming w here uri true, answers, opened here []))
        × (run_tcp_init codec here status (answers ++ []) true true
            ≡ (connected status there, (asks, ok (there, []))))
  unfolding accept_greeting run_tcp_init answer_hello
  greetings_meet fresh = (
    rw
        (
          read_hello-encode_json codec there here is_hello hello asks [] asked refl,
          accept_greeting,
          fresh,
          write_hello_done codec there hello_ack answers answered,
        )
        refl,
    rw
        (
          write_hello_done codec here hello asks asked,
          run_tcp_init,
          read_hello-encode_json codec here there (λ t. is_hello t || is_hello_ack t) hello_ack
              answers [] answered refl,
        )
        refl,
  )

  -- A node greets another, where its id is in no claim, and both greetings can be encoded and
  -- written. Then the other writes its answer, has the greeting with no byte left over, and has
  -- claimed the key of the node and started a session under it; the node writes its greeting and
  -- has that of the other with no byte left over, and its status says connected, with the id and
  -- the host name of the other and without an error.
  pub nodes_greet :
      member here.node_id w.runtime.live ≡ false
      → let accepted = accept_greeting codec there w uri (asks ++ []) true in
        let dialled = run_tcp_init codec here status (answers ++ []) true true in
        (accepted.1 ≡ answers)
        × (accepted.2 ≡ opened here [])
        × (accepted.0.runtime.live ≡ here.node_id ∷ w.runtime.live)
        × (accepted.0.running ≡ here.node_id ∷ w.running)
        × (dialled.0 ≡ record status {
          state = codes "connected";
          remote_node = some there.node_id;
          remote_host = some there.hostname;
          last_error = none;
        })
        × (dialled.1 ≡ (asks, ok (there, [])))
  nodes_greet fresh =
      let (accepts, dials) = greetings_meet fresh in
      let (live, running) = answered_claims w here uri fresh in
      (
        ap (λ o. o.1) accepts,
        ap (λ o. o.2) accepts,
        ap (λ o. o.0.runtime.live) accepts ∙ live,
        ap (λ o. o.0.running) accepts ∙ running,
        ap (λ o. o.0) dials,
        ap (λ o. o.1) dials,
      )

  -- A node that greets another, which has a session with it already, gets no answer and finds the
  -- end of the connection; the other is left as it was, and the status of the node too.
  pub greeting_declined :
      member here.node_id w.runtime.live ≡ true
      → (accept_greeting codec there w uri (asks ++ []) true ≡ (w, [], declined))
        × (run_tcp_init codec here status [] true true
            ≡ (status, (asks, err (proto (io early_eof)))))
  unfolding accept_greeting run_tcp_init read_hello read_frame read_exact
  greeting_declined live = (
    rw
        (
          read_hello-encode_json codec there here is_hello hello asks [] asked refl,
          accept_greeting,
          live,
        )
        refl,
    rw (write_hello_done codec here hello asks asked, run_tcp_init) refl,
  )
