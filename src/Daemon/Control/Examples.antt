-- ===== src/Daemon/Control/Examples.antt =====
-- A request to copy, and its answer. The headers of the examples are those without the members
-- that may be missing.
use zsync.Base.{
  eqb, if◌then◌else◌, length, any, Bytes, Text, codes, text_eq, ◌==◌, nat_eq, ok, ℕ, ◌+◌, ◌-◌, ◌≡◌,
  refl, Bool, true, false, Option, none, some, [], ◌∷◌, ◌++◌, arith,
}
use zsync.Clipboard.{new_item}
use zsync.Clipboard.Memory.{Memory, memory}
use zsync.Protocol.Examples.{digest}
use zsync.State.{open_state, next_seq, save}
use zsync.Hub.{new, local_push, pack, broadcast}
use zsync.Hub.Examples.{board}
use zsync.Ipc.{Header, write_msg, read_response}
use zsync.Daemon.Dispatch.{Request, Response, Refusal, StatusPayload, Reply, dispatch, copy, plain}
use zsync.Daemon.Dispatch.Examples.{is_ipv6, b64_decode, daemon}
use zsync.Daemon.Control.{Handled, handle_ipc}
use zsync.Daemon.Control.Ends.{handle_ipc_total}
use zsync.Daemon.Control.Answers.{request_answered}

abbrev show_request : Text → Option Text → Option Text → ℕ → Option Bytes
show_request action none none n =
    if any (λ b. b == b'\n') action then none else some ((n + 11) ∷ action)
show_request action none (some m) n = none
show_request action (some u) mime n = none

abbrev read_request : Bytes → Option (Request × ℕ)
read_request [] = none
read_request (d ∷ action) = some (record { action = action; uri = none; mime = none }, d - 11)

read_request_lem :
    (action : Text) (uri mime : Option Text) (n : ℕ) (line : Bytes)
    → show_request action uri mime n ≡ some line
    → read_request line ≡ some (record { action = action; uri = uri; mime = mime }, n)
read_request_lem action none none n line h = ground (arith, h)
read_request_lem action none (some m) n line h = absurd (cc)
read_request_lem action (some u) mime n line h = absurd (cc)

request_line :
    (action : Text) (uri mime : Option Text) (n : ℕ) (line : Bytes)
    → show_request action uri mime n ≡ some line
    → any (λ b. b == b'\n') line ≡ false
request_line action none none n line h = ground (arith, h)
request_line action none (some m) n line h = absurd (cc)
request_line action (some u) mime n line h = absurd (cc)

unfoldable requests : Header Request
requests = record {
  set_n = λ r n. r;
  to_string = λ r n. show_request r.action r.uri r.mime n;
  from_slice = read_request;
  from_slice-to_string = λ r n line h. read_request_lem r.action r.uri r.mime n line h;
  one_line = λ r n line h. request_line r.action r.uri r.mime n line h;
}

-- A response that says only whether all went well.
abbrev show_response :
    Option Refusal
    → Option StatusPayload
    → Option Text
    → Option Text
    → Option Bool
    → Option Text
    → Bool
    → ℕ
    → ℕ
    → Option Bytes
show_response none none none none none none good m n =
    if eqb m n then some ((if good then 1 else 0) ∷ (n + 11) ∷ []) else none
show_response (some e) status mime path headless name good m n = none
show_response none (some s) mime path headless name good m n = none
show_response none none (some s) path headless name good m n = none
show_response none none none (some p) headless name good m n = none
show_response none none none none (some h) name good m n = none
show_response none none none none none (some t) good m n = none

abbrev read_response_line : Bytes → Option (Response × ℕ)
read_response_line (g ∷ d ∷ rest) = some (record (plain (eqb g 1) none) { n = d - 11 }, d - 11)
read_response_line _ = none

abbrev ReadBack : Response → ℕ → Type 0
ReadBack r n =
    (line : Bytes)
    → show_response r.error r.status r.mime r.path r.headless r.name r.ok_flag r.n n ≡ some line
    → (read_response_line line ≡ some (record r { n = n }, n))
      × (any (λ b. b == b'\n') line ≡ false)

read_back :
    (e : Option Refusal) (s : Option StatusPayload) (mime path : Option Text)
    (headless : Option Bool) (name : Option Text) (good : Bool) (m n : ℕ)
    → ReadBack
        (record {
          ok_flag = good;
          error = e;
          status = s;
          mime = mime;
          n = m;
          path = path;
          headless = headless;
          name = name;
        })
        n
read_back none none none none none none true m n line h = (ground (arith, h), ground (arith, h))
read_back none none none none none none false m n line h = (ground (arith, h), ground (arith, h))
read_back (some e) s mime path headless name good m n line h = absurd (cc)
read_back none (some s) mime path headless name good m n line h = absurd (cc)
read_back none none (some s) path headless name good m n line h = absurd (cc)
read_back none none none (some p) headless name good m n line h = absurd (cc)
read_back none none none none (some b) name good m n line h = absurd (cc)
read_back none none none none none (some t) good m n line h = absurd (cc)

unfoldable responses : Header Response
responses = record {
  set_n = λ r n. record r { n = n };
  to_string = λ r n. show_response r.error r.status r.mime r.path r.headless r.name r.ok_flag r.n n;
  from_slice = read_response_line;
  from_slice-to_string = λ r n line h.
      (read_back r.error r.status r.mime r.path r.headless r.name r.ok_flag r.n n line h).0;
  one_line = λ r n line h.
      (read_back r.error r.status r.mime r.path r.headless r.name r.ok_flag r.n n line h).1;
}

abbrev copying : Request
copying = record { action = codes "copy"; uri = none; mime = none }

abbrev question : Bytes
question = (13 ∷ codes "copy") ++ b'\n' ∷ codes "hi"

asked : write_msg requests [] copying (codes "hi") ≡ ok question
unfolding write_msg requests
asked = refl

question_line : requests.to_string copying 2 ≡ some (13 ∷ codes "copy")
unfolding requests
question_line = refl

abbrev clock : ℕ → ℕ
clock i = 100 + i

abbrev saves : ℕ → Bool
saves i = true

abbrev handle : ℕ → Bytes → Option (Handled Memory)
handle fuel stream =
    handle_ipc board digest is_ipv6 b64_decode some requests responses (codes "memory") 77 clock
      saves fuel 0 daemon stream []

handle_ipc_total_example : (out : Handled Memory) × (handle 9 question ≡ some out)
handle_ipc_total_example =
    handle_ipc_total board digest is_ipv6 b64_decode some requests responses (codes "memory") 77
      clock saves 9 0 daemon question [] (omega arith)

abbrev outcome : Reply Memory
outcome =
    let (rt, resp, out) =
      dispatch board digest is_ipv6 b64_decode some daemon (requests.set_n copying 2) (codes "hi")
        (codes "memory") 77 (clock 0) (saves 0) in
    (rt, record resp { n = length out }, out)

answer_line : responses.to_string outcome.1 (length outcome.2) ≡ some (1 ∷ 11 ∷ [])
unfolding dispatch copy local_push pack broadcast next_seq save new open_state requests new_item
    memory responses
answer_line = refl

answered : write_msg responses [] outcome.1 outcome.2 ≡ ok (1 ∷ 11 ∷ b'\n' ∷ [])
unfolding dispatch copy local_push pack broadcast next_seq save new open_state requests new_item
    memory responses write_msg
answered = refl

request_answered_example :
    (handle 2 question ≡ some (outcome.0, 1 ∷ 11 ∷ b'\n' ∷ [], ok tt))
    × (read_response responses (1 ∷ 11 ∷ b'\n' ∷ []) 64
        ≡ ok (responses.set_n outcome.1 (length outcome.2), outcome.2))
request_answered_example =
    request_answered board digest is_ipv6 b64_decode some requests responses (codes "memory") 77
      clock saves daemon copying (13 ∷ codes "copy") (codes "hi") question (1 ∷ 11 ∷ [])
      (1 ∷ 11 ∷ b'\n' ∷ []) 64 asked question_line (omega arith) answer_line answered
