-- ===== src/Hub.antt =====
-- src/hub.rs: the clipboard of one node between the local watcher and its peers.
-- `now` is the clock of the call. `saves` says whether the disk takes the next sequence number.
-- `sent` is what was put into the broadcast channel so far, the last message at the end.
pub mod Apply
pub mod FanOut
pub mod Echo
pub mod Local
pub mod Examples
use zsync.Base.{
  ltb, leb, eqb, if◌then◌else◌, ltb→lt, lt→ltb, le→ltb, leb→le, eqb_iff, Bool-cases, Option-cases,
  length, get_or, take, drop, replicate, is_empty, any, all, keep, All, length-append, length-drop,
  length-take, take-append, drop-append, take-append-drop, take-length, any-append, length-keep-le,
  Bytes, Text, codes, text_beq, text_beq_iff, text_eq, starts_with, utf8_width, text_len, ◌>>=◌,
  ◌>>◌, fail_if, or_fail, Result-cases, Result, Eq, ◌==◌, nat_eq, ok, err, ℕ, zero, suc, ◌+◌, ◌-◌,
  ◌*◌, ◌/◌, ◌%◌, ◌^◌, ◌≤◌, ◌<◌, min, max, ◌≡◌, refl, sym, ap, ap₂, ◌∙◌, subst, ◌≢◌, ◌↔◌, ◌⊎◌, inl,
  inr, Bool, true, false, not, ◌&&◌, ◌||◌, Option, none, some, List, [], ◌∷◌, ◌++◌, map,
  append_assoc, append-nil, arith,
}
use zsync.Protocol.{
  Hello, max_clip, ProtoError, too_large, size_mismatch, ClipMeta, Clip, ClipAck, hash,
}
use zsync.Protocol.Clips.{verify_clip}
use zsync.Protocol.Mime.{detect_mime}
use zsync.Clipboard.{Item, Backend}
use zsync.Suppress.{Suppress}
use zsync.Suppress
use zsync.Suppress.Seen.{SeenSeq, accept, default}
use zsync.State.{StateFile, next_seq}

-- A clip for the peers; the peer `skip` must not receive it again.
pub record Outbound : Type 0 where
  pub clip : Clip
  pub skip : Option Text

pub record Hub (B : Type 0) : Type 0 where
  pub node_id : Text
  pub clipboard : B
  pub suppress : Suppress
  pub seen : SeenSeq
  pub state : StateFile
  pub sent : List Outbound

pub data HubError : Type 0 where
  exceeds_limit persist_seq backend_failed : HubError

abbrev pub Outcome : Type 0 → Type 0 → Type 0
Outcome B A = Hub B × Result HubError A

module _ {B : Type 0} where
  unfoldable pub new : Text → B → StateFile → ℕ → Hub B
  unfolding default
  new node_id clipboard state suppress_ttl = record {
    node_id = node_id;
    clipboard = clipboard;
    suppress = Suppress.new suppress_ttl 64;
    seen = default;
    state = state;
    sent = [];
  }

  unfoldable pub emit : Hub B → Clip → Option Text → Hub B
  emit hub clip skip = record hub { sent = hub.sent ++ record { clip = clip; skip = skip } ∷ [] }

  abbrev pub note : Hub B → Text → ℕ → Hub B
  note hub h now = record hub { suppress = Suppress.add hub.suppress h now }

  -- A clip of this node with the next sequence number.
  unfoldable pub pack : Hub B → Text → Text → Bytes → Text → Bool → Outcome B Clip
  pack hub mime name content h saves =
      let (state, seq) = next_seq hub.state saves in
      (
        record hub { state = state },
        elim seq [
          | none ↦ err persist_seq
          | some n ↦ ok (record {
            meta = record {
              origin_id = hub.node_id;
              seq = n;
              mime = if is_empty mime then detect_mime content else mime;
              hash = h;
              size = length content;
              name = name;
            };
            content = content;
          })
        ],
      )

  -- A packed clip goes to every peer.
  unfoldable pub broadcast : Outcome B Clip → Outcome B Clip
  unfolding emit
  broadcast (hub, ok clip) = (emit hub clip none, ok clip)
  broadcast (hub, err e) = (hub, err e)

-- `if ack.ok { self.emit(out, Some(from_peer)) }`.
unfoldable pub fan_out : {B : Type 0} → Clip → Text → Outcome B ClipAck → Outcome B ClipAck
unfolding emit
fan_out clip from_peer (hub, err e) = (hub, err e)
fan_out clip from_peer (hub, ok a) =
    ((if a.ok_flag then emit hub clip (some from_peer) else hub), ok a)

abbrev pub ack : Text → Bool → Text → ClipAck
ack h good reason = record { hash = h; ok_flag = good; reason = reason }

-- The reason that a peer is told.
unfoldable pub refusal : ProtoError → Text
refusal too_large = codes "too-large"
refusal (size_mismatch got want) = codes "truncated"
refusal _ = codes "hash-mismatch"

module _ {B : Type 0} (backend : Backend B) (sha256 : Bytes → Bytes) where
  -- The greeting of the node, with the name of the machine, its system and the program's version.
  unfoldable pub hello : Hub B → Text → Text → Text → Hello
  hello hub hostname os version = record {
    node_id = hub.node_id;
    hostname = hostname;
    os = os;
    headless = backend.headless hub.clipboard;
    version = version;
    max_bytes = max_clip;
  }

  -- The hash of an item, computed where the item has none.
  abbrev pub hash_of : Item → Text
  hash_of item = if is_empty item.hash then hash sha256 item.content else item.hash

  -- The last part of `local_observed`: the item is new, and goes to every peer.
  unfoldable pub publish : Hub B → Item → ℕ → Bool → Outcome B (Option Clip)
  publish hub item now saves =
      let (hub', packed) = broadcast (
        pack (note hub (hash_of item) now) item.mime item.name item.content (hash_of item) saves) in
      (hub', (packed >>= λ clip. ok (some clip)))

  -- The watcher saw this item on the clipboard.
  unfoldable pub local_observed : Hub B → Item → ℕ → Bool → Outcome B (Option Clip)
  local_observed hub item now saves =
      if is_empty item.content
      then (hub, ok none)
      else if ltb max_clip (length item.content)
      then (hub, ok none)
      else if Suppress.has hub.suppress (hash_of item) now
      then (hub, ok none)
      else publish hub item now saves

  -- `zsync copy`: the item is written to the clipboard, and what was stored is sent.
  unfoldable pub local_push : Hub B → Item → ℕ → Bool → Outcome B Clip
  local_push hub item now saves =
      let h = hash_of item in
      let noted = note hub h now in
      let (board, result) = backend.set noted.clipboard (record item { hash = h }) in
      let written = record noted { clipboard = board } in
      let pushed : Outcome B Clip = elim result [
        | err e ↦ (written, err backend_failed)
        | ok stored ↦ broadcast (
            pack (note written stored.hash now) stored.mime stored.name stored.content stored.hash
              saves)
      ] in
      if ltb max_clip (length item.content) then (hub, err exceeds_limit) else pushed

  -- The clipboard holds the item of this hash already.
  unfoldable pub already_present : Hub B → Text → Bool
  already_present hub h = elim (backend.get hub.clipboard) [
    | err e ↦ false
    | ok cur ↦ elim cur [ none ↦ false | some item ↦ item.hash == h ]
  ]

  -- The last part of `apply_remote`: the clip is new, and goes to the clipboard.
  unfoldable pub store : Hub B → Clip → ℕ → Outcome B ClipAck
  store hub clip now =
      let noted = note hub clip.meta.hash now in
      let (board, result) = backend.set noted.clipboard (record {
        mime = clip.meta.mime;
        content = clip.content;
        hash = clip.meta.hash;
        path = [];
        name = clip.meta.name;
      }) in
      let written = record noted { clipboard = board } in
      elim result [
        | err e ↦ (written, err backend_failed)
        | ok stored ↦ (note written stored.hash now, ok (ack stored.hash true []))
      ]

  unfoldable pub apply_remote : Hub B → Clip → ℕ → Outcome B ClipAck
  apply_remote hub clip now = elim (verify_clip sha256 clip) [
    | err e ↦ (hub, ok (ack clip.meta.hash false (refusal e)))
    | ok _ ↦
        let (seen, fresh) = accept hub.seen clip.meta.origin_id clip.meta.seq in
        let hub' = record hub { seen = seen } in
        if clip.meta.origin_id == hub.node_id
        then (hub, ok (ack clip.meta.hash true (codes "own-origin")))
        else if not fresh
        then (hub', ok (ack clip.meta.hash true (codes "duplicate")))
        else if already_present hub' clip.meta.hash
        then (note hub' clip.meta.hash now, ok (ack clip.meta.hash true (codes "already-present")))
        else store hub' clip now
  ]

  -- A clip from the peer `from_peer` is applied, and fanned out to the other peers.
  unfoldable pub apply_from : Hub B → Clip → Text → ℕ → Outcome B ClipAck
  unfolding fan_out
  apply_from hub clip from_peer now = fan_out clip from_peer (apply_remote hub clip now)
