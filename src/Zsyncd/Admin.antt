-- ===== src/Zsyncd/Admin.antt =====
-- `dispatch_admin` (zsyncd.rs): the requests on the admin socket of the relay server.
pub mod Kicks
use zsync.Base.{
  ltb, leb, eqb, if◌then◌else◌, ltb→lt, lt→ltb, le→ltb, leb→le, eqb_iff, Bool-cases, Option-cases,
  length, get_or, take, drop, replicate, is_empty, any, all, keep, All, length-append, length-drop,
  length-take, take-append, drop-append, take-append-drop, take-length, any-append, length-keep-le,
  Bytes, Text, codes, text_beq, text_beq_iff, text_eq, starts_with, utf8_width, text_len, ◌>>=◌,
  ◌>>◌, fail_if, or_fail, Result-cases, Result, Eq, ◌==◌, nat_eq, ok, err, ℕ, zero, suc, ◌+◌, ◌-◌,
  ◌*◌, ◌/◌, ◌%◌, ◌^◌, ◌≤◌, ◌<◌, min, max, ◌≡◌, refl, sym, ap, ap₂, ◌∙◌, subst, ◌≢◌, ◌↔◌, ◌⊎◌, inl,
  inr, Bool, true, false, not, ◌&&◌, ◌||◌, Option, none, some, List, [], ◌∷◌, ◌++◌, map,
  append_assoc, append-nil, arith,
}
use zsync.Base.Map.{
  Map, lookup, insert, remove, retain, eq_refl, lookup-insert, lookup-remove, Distinct,
}
use zsync.Zsyncd.Rooms.{Rooms, LiveDevice, kick, kick_group, snapshot, members}

pub record AdminReq : Type 0 where
  pub action : Text
  pub group_id : Option Text
  pub device_id : Option Text

pub record AdminResp : Type 0 where
  pub ok_flag : Bool
  pub error : Option Text
  pub online : Map Text ℕ
  pub pid : Option ℕ
  pub port : Option ℕ
  pub members : Map Text (List LiveDevice)

-- `AdminResp::default`, with the fields `ok` and `error` given.
abbrev pub answer : Bool → Option Text → AdminResp
answer good error = record {
  ok_flag = good;
  error = error;
  online = [];
  pid = none;
  port = none;
  members = [];
}

-- The server's rooms after the request, the sessions that it stops, and the answer.
abbrev pub Answered : Type 0
Answered = Rooms × List ℕ × AdminResp

unfoldable pub admin_kick : Rooms → Option Text → Option Text → Answered
admin_kick r (some g) (some d) =
    let (r', stopped, found) = kick r g d in
    (r', stopped, answer found (if found then none else some (codes "not connected")))
admin_kick r (some g) none = (r, [], answer false (some (codes "missing group_id or device_id")))
admin_kick r none d = (r, [], answer false (some (codes "missing group_id or device_id")))

unfoldable pub admin_kick_group : Rooms → Option Text → Answered
admin_kick_group r none = (r, [], answer false (some (codes "missing group_id")))
admin_kick_group r (some g) = let (r', stopped) = kick_group r g in (r', stopped, answer true none)

unfoldable pub dispatch_admin : Rooms → ℕ → ℕ → AdminReq → Answered
unfolding admin_kick admin_kick_group
dispatch_admin r pid port req =
    if req.action == codes "ls" || req.action == codes "status"
    then (
      r,
      [],
      record {
        ok_flag = true;
        error = none;
        online = snapshot r;
        pid = some pid;
        port = some port;
        members = members r;
      },
    )
    else if req.action == codes "kick"
    then admin_kick r req.group_id req.device_id
    else if req.action == codes "kick_group"
    then admin_kick_group r req.group_id
    else (r, [], answer false (some (codes "unknown action " ++ req.action)))
