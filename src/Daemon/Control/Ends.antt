-- ===== src/Daemon/Control/Ends.antt =====
-- The loop of `handle_ipc` ends.
use zsync.Base.{
  length, all, length-drop, Bytes, Text, text_eq, Result-cases, nat_eq, ok, err, ℕ, zero, suc, ◌+◌,
  ◌≤◌, ◌<◌, ◌≡◌, refl, inl, inr, Bool, Option, some, [], ◌∷◌, arith,
}
use zsync.Clipboard.{Backend}
use zsync.Net.{PeerTarget}
use zsync.Ipc.{Header, write_msg, read_line, read_line_json, read_exact_body}
use zsync.Daemon.Table.{Runtime}
use zsync.Daemon.Dispatch.{Request, Response}
use zsync.Daemon.Control.{Handled, reply, handle_ipc}

-- A line takes a byte at least, its newline.
read_line-length :
    (n : ℕ) (stream line rest : Bytes)
    → read_line n stream ≡ ok (line, rest)
    → length rest < length stream
unfolding read_line
read_line-length n [] line rest h = absurd (cc)
read_line-length n (b ∷ s) line rest h = elim (Result-cases (read_line (n + 1) s)) [
  | inl (e, bad) ↦ ground (arith, bad)
  | inr (p, good) ↦ ground (arith, good, read_line-length (n + 1) s p.0 p.1 good)
]

read_line_json-length :
    {A : Type 0} (codec : Header A) (stream : Bytes) (got : (A × ℕ) × Bytes)
    → read_line_json codec stream ≡ ok got
    → length got.1 < length stream
unfolding read_line_json
read_line_json-length codec stream got h = elim (Result-cases (read_line 0 stream)) [
  | inl (e, bad) ↦ absurd (ground (arith, bad))
  | inr (p, good) ↦ ground (arith, good, read_line-length 0 stream p.0 p.1 good)
]

read_exact_body-length :
    (stream : Bytes) (n : ℕ) (got : Bytes × Bytes)
    → read_exact_body stream n ≡ ok got
    → length got.1 ≤ length stream
unfolding read_exact_body
read_exact_body-length stream n got h = ground (arith, length-drop n stream)

module _ {B : Type 0} (backend : Backend B) (sha256 : Bytes → Bytes) (is_ipv6 : Text → Bool)
    (b64_decode : Text → Option Bytes) (resolve : PeerTarget → Option PeerTarget)
    (requests : Header Request) (responses : Header Response) (clipboard : Text) (pid : ℕ)
    (now : ℕ → ℕ) (saves : ℕ → Bool) where
  -- The loop over the requests of a connection ends, whatever its bytes are: fuel for more requests
  -- than the connection has bytes gives a result.
  pub handle_ipc_total :
      (fuel i : ℕ) (rt : Runtime B) (stream sent : Bytes)
      → length stream < fuel
      → (out : Handled B) × (handle_ipc backend sha256 is_ipv6 b64_decode resolve requests responses
            clipboard pid now saves fuel i rt stream sent
          ≡ some out)
  unfolding handle_ipc
  handle_ipc_total zero i rt stream sent h = absurd (omega (arith, h))
  handle_ipc_total (suc fuel) i rt stream sent h =
      elim (Result-cases (read_line_json requests stream)) [
        | inl (e, bad) ↦ ((rt, sent, ok tt), rw (bad, handle_ipc) refl)
        | inr (got, good) ↦ elim (Result-cases (read_exact_body got.1 got.0.1)) [
          | inl (e, bad) ↦ ((rt, sent, err e), rw (good, handle_ipc, bad) refl)
          | inr (taken, all) ↦
              let r =
                reply backend sha256 is_ipv6 b64_decode resolve requests responses clipboard pid now
                  saves rt i got.0.0 taken.0 in
              elim (Result-cases (write_msg responses sent r.1 r.2)) [
                | inl (e, bad) ↦ ((r.0, sent, err e), rw (good, handle_ipc, all, bad) refl)
                | inr (sent', w) ↦
                    let (out, ends) = handle_ipc_total fuel (i + 1) r.0 taken.1 sent' (
                      omega (
                        arith,
                        h,
                        read_line_json-length requests stream got good,
                        read_exact_body-length got.1 got.0.1 taken all,
                      )) in
                    (out, rw (good, handle_ipc, all, w) ends)
              ]
        ]
      ]
