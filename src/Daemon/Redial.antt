-- ===== src/Daemon/Redial.antt =====
-- `maintain_tcp` and `maintain_relay` of src/daemon.rs: the loops that dial a peer again. A round
-- is a function of what its attempt gives and of the stop channel; times are milliseconds.
pub mod Delays
mod Examples
use zsync.Base.{
  ltb, leb, eqb, if◌then◌else◌, ltb→lt, lt→ltb, le→ltb, leb→le, eqb_iff, Bool-cases, Option-cases,
  length, get_or, take, drop, replicate, is_empty, any, all, keep, All, length-append, length-drop,
  length-take, take-append, drop-append, take-append-drop, take-length, any-append, length-keep-le,
  Bytes, Text, codes, text_beq, text_beq_iff, text_eq, starts_with, utf8_width, text_len, ◌>>=◌,
  ◌>>◌, fail_if, or_fail, Result-cases, Result, Eq, ◌==◌, nat_eq, ok, err, ℕ, zero, suc, ◌+◌, ◌-◌,
  ◌*◌, ◌/◌, ◌%◌, ◌^◌, ◌≤◌, ◌<◌, min, max, ◌≡◌, refl, sym, ap, ap₂, ◌∙◌, subst, ◌≢◌, ◌↔◌, ◌⊎◌, inl,
  inr, Bool, true, false, not, ◌&&◌, ◌||◌, Option, none, some, List, [], ◌∷◌, ◌++◌, map,
  append_assoc, append-nil, arith,
}
use zsync.Daemon.Table.{PeerStatus}

pub record Dialler : Type 0 where
  pub status : PeerStatus
  pub delay : ℕ
  pub over : Bool

-- The stop channel before the attempt, how the session ended, the stop channel after it, and what
-- ends the wait: the timer, or a change of the stop channel.
pub record Attempt : Type 0 where
  pub stop_before : Bool
  pub result : Result Text (Unit {0})
  pub stop_after : Bool
  pub woken : Option Bool

-- The characters that fit into 200 bytes, of which `used` are taken.
unfoldable pub shortened : ℕ → Text → Text
shortened used [] = []
shortened used (c ∷ s) =
    let bytes = used + utf8_width c in
    let rest = shortened bytes s in if leb bytes 200 then c ∷ rest else []

unfoldable pub short_err : Text → Text
unfolding shortened
short_err s = if ltb 200 (text_len s) then shortened 0 s ++ codes "…" else s

abbrev pub with_state : Dialler → Text → Dialler
with_state d state = record d { status = record (d.status) { state = state } }

abbrev pub disconnected : Dialler → Dialler
disconnected d = record (with_state d (codes "disconnected")) { over = true }

abbrev pub is_stop : Option Bool → Bool
is_stop none = false
is_stop (some stop) = stop

-- A session that ended well resets the delay.
unfoldable pub attempted : Dialler → Result Text (Unit {0}) → Dialler
unfolding short_err
attempted d (ok _) = record d { delay = 1000 }
attempted d (err e) = record d { status = record (d.status) { last_error = some (short_err e) } }

unfoldable pub wait : Dialler → Option Bool → Dialler
wait d woken =
    if is_stop woken then disconnected d else record d { delay = min (d.delay * 2) 30000 }

unfoldable pub relay_round : Dialler → Attempt → Dialler
unfolding attempted wait
relay_round d a =
    let tried = attempted (with_state d (codes "connecting")) a.result in
    if a.stop_before
    then disconnected d
    else if a.stop_after
    then disconnected tried
    else wait (with_state tried (codes "reconnecting")) a.woken

-- A peer with a live session is looked at again after two seconds.
unfoldable pub tcp_round : Dialler → Bool → Attempt → Dialler
tcp_round d live a =
    if a.stop_before
    then disconnected d
    else if live
    then (if is_stop a.woken
        then disconnected (with_state d (codes "connected"))
        else with_state d (codes "connected"))
    else relay_round d a

-- The rounds of a loop, each with whether the peer has a live session.
unfoldable pub maintain : Dialler → List (Bool × Attempt) → Dialler
unfolding tcp_round
maintain d [] = d
maintain d ((live, a) ∷ rest) = maintain (if d.over then d else tcp_round d live a) rest
