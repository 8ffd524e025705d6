-- ===== src/State.antt =====
-- `StateFile` of src/config.rs: the sequence number and the saved peers, in memory and on disk.
-- `saves` says whether the disk takes a write; the file is replaced by a rename, so that a write
-- that fails leaves it as it was. `seq` is a u64, whose increment wraps.
pub mod Sequence
pub mod Peers
mod Examples
use zsync.Base.{
  ltb, leb, eqb, if◌then◌else◌, ltb→lt, lt→ltb, le→ltb, leb→le, eqb_iff, Bool-cases, Option-cases,
  length, get_or, take, drop, replicate, is_empty, any, all, keep, All, length-append, length-drop,
  length-take, take-append, drop-append, take-append-drop, take-length, any-append, length-keep-le,
  Bytes, Text, codes, text_beq, text_beq_iff, text_eq, starts_with, utf8_width, text_len, ◌>>=◌,
  ◌>>◌, fail_if, or_fail, Result-cases, Result, Eq, ◌==◌, nat_eq, ok, err, ℕ, zero, suc, ◌+◌, ◌-◌,
  ◌*◌, ◌/◌, ◌%◌, ◌^◌, ◌≤◌, ◌<◌, min, max, ◌≡◌, refl, sym, ap, ap₂, ◌∙◌, subst, ◌≢◌, ◌↔◌, ◌⊎◌, inl,
  inr, Bool, true, false, not, ◌&&◌, ◌||◌, Option, none, some, List, [], ◌∷◌, ◌++◌, map,
  append_assoc, append-nil, arith,
}

pub record PeerState : Type 0 where
  pub uri : Text
  pub enabled : Bool

pub record State : Type 0 where
  pub seq : ℕ
  pub peers : List PeerState

pub record StateFile : Type 0 where
  pub disk : Option State
  pub inner : State

-- `open`: what the file holds, or the default where it is missing or does not parse.
unfoldable pub open_state : Option State → StateFile
open_state disk = record {
  disk = disk;
  inner = elim disk [ none ↦ record { seq = 0; peers = [] } | some s ↦ s ];
}

unfoldable pub save : StateFile → Bool → StateFile × Bool
save f saves = if saves then (record f { disk = some f.inner }, true) else (f, false)

-- The file, and the number if it could be saved.
unfoldable pub next_seq : StateFile → Bool → StateFile × Option ℕ
unfolding save
next_seq f saves =
    let seq = (f.inner.seq + 1) % 2 ^ 64 in
    let (g, saved) = save (record f { inner = record (f.inner) { seq = seq } }) saves in
    (g, (if saved then some seq else none))

-- The first entry of this address is changed, or a new one is appended.
upsert : Text → Bool → List PeerState → List PeerState
upsert uri enabled [] = record { uri = uri; enabled = enabled } ∷ []
upsert uri enabled (p ∷ ps) =
    if p.uri == uri then record p { enabled = enabled } ∷ ps else p ∷ upsert uri enabled ps

pub upsert_peer : StateFile → Text → Bool → Bool → StateFile × Bool
unfolding upsert save
upsert_peer f uri enabled saves =
    save (record f { inner = record (f.inner) { peers = upsert uri enabled f.inner.peers } }) saves

-- The addresses that were removed: the given one if it was there, or all of them. Where the disk
-- does not take the write there is no answer.
pub remove_peer : StateFile → Option Text → Bool → StateFile × Option (List Text)
unfolding save
remove_peer f uri saves =
    let rest : List PeerState = elim uri [
      | none ↦ []
      | some u ↦ keep (λ p. not (p.uri == u)) f.inner.peers
    ] in
    let removed : List Text = elim uri [
      | none ↦ map (λ p. p.uri) f.inner.peers
      | some u ↦ if length rest == length f.inner.peers then [] else u ∷ []
    ] in
    let (g, saved) = save (record f { inner = record (f.inner) { peers = rest } }) saves in
    (g, (if saved then some removed else none))
