-- ===== src/Daemon/Dispatch.antt =====
-- `dispatch` of src/daemon.rs: the requests of the command line. The texts of the errors are left
-- out; `clipboard` is the name of the backend, `pid` the process.
pub mod Disconnect
pub mod Connect
pub mod Examples
use zsync.Base.{
  ltb, leb, eqb, if◌then◌else◌, ltb→lt, lt→ltb, le→ltb, leb→le, eqb_iff, Bool-cases, Option-cases,
  length, get_or, take, drop, replicate, is_empty, any, all, keep, All, length-append, length-drop,
  length-take, take-append, drop-append, take-append-drop, take-length, any-append, length-keep-le,
  Bytes, Text, codes, text_beq, text_beq_iff, text_eq, starts_with, utf8_width, text_len, ◌>>=◌,
  ◌>>◌, fail_if, or_fail, Result-cases, Result, Eq, ◌==◌, nat_eq, ok, err, ℕ, zero, suc, ◌+◌, ◌-◌,
  ◌*◌, ◌/◌, ◌%◌, ◌^◌, ◌≤◌, ◌<◌, min, max, ◌≡◌, refl, sym, ap, ap₂, ◌∙◌, subst, ◌≢◌, ◌↔◌, ◌⊎◌, inl,
  inr, Bool, true, false, not, ◌&&◌, ◌||◌, Option, none, some, List, [], ◌∷◌, ◌++◌, map,
  append_assoc, append-nil, arith,
}
use zsync.Base.Map.{
  Map, lookup, insert, remove, retain, eq_refl, lookup-insert, lookup-remove, Distinct,
}
use zsync.Clipboard.{Item, Backend, new_item}
use zsync.State.{upsert_peer, remove_peer}
use zsync.Net.{PeerTarget, PeerError, parse_peer}
use zsync.Hub.{Hub, HubError, local_push}
use zsync.Daemon.Table.{Runtime, PeerStatus, spawn_peer, stop_peers}

-- The fields that `dispatch` reads.
pub record Request : Type 0 where
  pub action : Text
  pub uri : Option Text
  pub mime : Option Text

pub record StatusPayload : Type 0 where
  pub daemon_pid : ℕ
  pub node_id : Text
  pub clipboard : Text
  pub headless : Bool
  pub current_mime : Option Text
  pub current_hash : Option Text
  pub current_bytes : Option ℕ
  pub current_path : Option Text
  pub port : ℕ
  pub peers : List PeerStatus

pub data Refusal : Type 0 where
  missing_uri unresolved not_saved clipboard_failed clipboard_empty : Refusal
  bad_peer : PeerError → Refusal
  push_failed : HubError → Refusal
  unknown_action : Text → Refusal

-- The fields that `dispatch` sets.
pub record Response : Type 0 where
  pub ok_flag : Bool
  pub error : Option Refusal
  pub status : Option StatusPayload
  pub mime : Option Text
  pub n : ℕ
  pub path : Option Text
  pub headless : Option Bool
  pub name : Option Text

abbrev pub plain : Bool → Option Refusal → Response
plain good e = record {
  ok_flag = good;
  error = e;
  status = none;
  mime = none;
  n = 0;
  path = none;
  headless = none;
  name = none;
}

-- The runtime, the response and its body.
abbrev pub Reply : Type 0 → Type 0
Reply B = Runtime B × Response × Bytes

module _ {B : Type 0} where
  abbrev pub done : Runtime B → Reply B
  done rt = (rt, plain true none, [])

  abbrev pub err_resp : Runtime B → Refusal → Reply B
  err_resp rt e = (rt, plain false (some e), [])

abbrev pub unless_empty : Text → Option Text
unless_empty s = if is_empty s then none else some s

-- `clip.get().ok().flatten()`.
abbrev pub current : {B : Type 0} → Backend B → B → Option Item
current backend b = elim (backend.get b) [ err e ↦ none | ok item ↦ item ]

abbrev pub of_item : {A : Type 0} → Option Item → (Item → A) → Option A
of_item none f = none
of_item (some item) f = some (f item)

module _ {B : Type 0} (backend : Backend B) (sha256 : Bytes → Bytes) (is_ipv6 : Text → Bool)
    (b64_decode : Text → Option Bytes) (resolve : PeerTarget → Option PeerTarget) where
  unfoldable pub collect_status : Runtime B → Text → ℕ → StatusPayload
  collect_status rt clipboard pid =
      let cur = current backend rt.hub.clipboard in
      record {
        daemon_pid = pid;
        node_id = rt.hub.node_id;
        clipboard = clipboard;
        headless = backend.headless rt.hub.clipboard;
        current_mime = of_item cur (λ i. i.mime);
        current_hash = of_item cur (λ i. i.hash);
        current_bytes = of_item cur (λ i. length i.content);
        current_path = unless_empty (backend.current_path rt.hub.clipboard);
        port = rt.port;
        peers = map (λ p. p.1.status) rt.peers;
      }

  unfoldable pub connect : Runtime B → Text → Bool → Reply B
  connect rt uri saves = elim (parse_peer is_ipv6 b64_decode uri) [
    | err e ↦ err_resp rt (bad_peer e)
    | ok parsed ↦ elim (resolve parsed) [
      | none ↦ err_resp rt unresolved
      | some target ↦
          let (state, saved) = upsert_peer rt.hub.state target.uri true saves in
          let kept = record rt { hub = record (rt.hub) { state = state } } in
          if saved
          then done (spawn_peer is_ipv6 b64_decode resolve kept target.uri true)
          else err_resp kept not_saved
    ]
  ]

  unfoldable pub disconnect : Runtime B → Option Text → Bool → Reply B
  disconnect rt uri saves =
      let (state, answer) = remove_peer rt.hub.state uri saves in
      let kept = record rt { hub = record (rt.hub) { state = state } } in
      elim answer [
        | none ↦ err_resp kept not_saved
        | some removed ↦ done (
            stop_peers is_ipv6 b64_decode kept
              (if is_empty removed then map (λ p. p.0) rt.peers else removed))
      ]

  unfoldable pub copy : Runtime B → Text → Bytes → ℕ → Bool → Reply B
  copy rt mime body now saves =
      let (hub, pushed) = local_push backend sha256 rt.hub (new_item sha256 mime body) now saves in
      let kept = record rt { hub = hub } in
      elim pushed [ err e ↦ err_resp kept (push_failed e) | ok c ↦ done kept ]

  unfoldable pub paste : Runtime B → Reply B
  paste rt = elim (backend.get rt.hub.clipboard) [
    | err e ↦ err_resp rt clipboard_failed
    | ok cur ↦ elim cur [
      | none ↦ err_resp rt clipboard_empty
      | some item ↦ (
        rt,
        record {
          ok_flag = true;
          error = none;
          status = none;
          mime = some item.mime;
          n = length item.content;
          path = unless_empty (backend.current_path rt.hub.clipboard);
          headless = some (backend.headless rt.hub.clipboard);
          name = unless_empty item.name;
        },
        item.content,
      )
    ]
  ]

  unfoldable pub dispatch : Runtime B → Request → Bytes → Text → ℕ → ℕ → Bool → Reply B
  dispatch rt req body clipboard pid now saves =
      if req.action == codes "status"
      then (rt, record (plain true none) { status = some (collect_status rt clipboard pid) }, [])
      else if req.action == codes "connect"
      then elim req.uri [ none ↦ err_resp rt missing_uri | some uri ↦ connect rt uri saves ]
      else if req.action == codes "disconnect"
      then disconnect rt req.uri saves
      else if req.action == codes "copy"
      then copy rt (elim req.mime [ none ↦ [] | some m ↦ m ]) body now saves
      else if req.action == codes "paste"
      then paste rt
      else err_resp rt (unknown_action req.action)
