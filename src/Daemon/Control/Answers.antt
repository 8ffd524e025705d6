-- ===== src/Daemon/Control/Answers.antt =====
-- A request of the command line, from its writing to the reading of the answer.
use zsync.Base.{
  length, Bytes, Text, text_eq, nat_eq, ok, ℕ, suc, ◌*◌, ◌≤◌, ◌≡◌, refl, sym, ap, ◌∙◌, Bool, Option,
  some, [], ◌++◌, append-nil,
}
use zsync.Clipboard.{Backend}
use zsync.Net.{PeerTarget}
use zsync.Ipc.{Header, write_msg, read_line_json, read_response}
use zsync.Ipc.RoundTrip.{read_line_json-write_msg, read_response-write_msg}
use zsync.Daemon.Table.{Runtime}
use zsync.Daemon.Dispatch.{Request, Response, Reply, dispatch}
use zsync.Daemon.Control.{reply, handle_ipc}

module _ {B : Type 0} (backend : Backend B) (sha256 : Bytes → Bytes) (is_ipv6 : Text → Bool)
    (b64_decode : Text → Option Bytes) (resolve : PeerTarget → Option PeerTarget)
    (requests : Header Request) (responses : Header Response) (clipboard : Text) (pid : ℕ)
    (now : ℕ → ℕ) (saves : ℕ → Bool) where
  nothing_more :
      (fuel i : ℕ) (rt : Runtime B) (sent : Bytes)
      → handle_ipc backend sha256 is_ipv6 b64_decode resolve requests responses clipboard pid now
          saves
          (suc fuel)
          i
          rt
          []
          sent
        ≡ some (rt, sent, ok tt)
  unfolding handle_ipc read_line_json
  nothing_more fuel i rt sent = refl

  -- What the dispatch of the first request gives, with the header that its line says, and the length
  -- of the body in the response.
  abbrev replied : Runtime B → Request → Bytes → Reply B
  replied rt req body =
      let (rt', resp, out) =
        dispatch backend sha256 is_ipv6 b64_decode resolve rt (requests.set_n req (length body))
          body clipboard pid (now 0) (saves 0) in
      (rt', record resp { n = length out }, out)

  -- The command line sends one request with its body, the line of which takes at most 64 KiB, and
  -- waits: the daemon dispatches that request with its body, with the header that the line says,
  -- and what it sends is, for the reader of the command line, the response of the dispatch, with
  -- the length of its body, and that body, where this can be written.
  pub request_answered :
      (rt : Runtime B) (req : Request) (line body sent : Bytes) (answer_line answer : Bytes)
      (buffered : ℕ)
      → write_msg requests [] req body ≡ ok sent
      → requests.to_string req (length body) ≡ some line
      → length line ≤ 64 * 1024
      → responses.to_string (replied rt req body).1 (length (replied rt req body).2)
        ≡ some answer_line
      → write_msg responses [] (replied rt req body).1 (replied rt req body).2 ≡ ok answer
      → (handle_ipc backend sha256 is_ipv6 b64_decode resolve requests responses clipboard pid now
            saves 2 0 rt sent []
          ≡ some ((replied rt req body).0, answer, ok tt))
        × (read_response responses answer buffered
            ≡ ok (
              responses.set_n (replied rt req body).1 (length (replied rt req body).2),
              (replied rt req body).2,
            ))
  unfolding handle_ipc reply
  request_answered rt req line body sent answer_line answer buffered w e k shown written =
      let (header, rest) = read_line_json-write_msg requests req line body sent [] w e k in
      let whole : read_line_json requests sent
          ≡ ok ((requests.set_n req (length body), length body), body ++ []) =
        ap (read_line_json requests) (sym (append-nil sent)) ∙ header in
      (
        rw (whole, handle_ipc, rest, written) (nothing_more 0 1 _ answer),
        read_response-write_msg responses _ answer_line _ answer buffered written shown,
      )
