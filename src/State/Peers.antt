-- ===== src/State/Peers.antt =====
-- The saved peers of `StateFile` (src/config.rs).
use zsync.Base.{
  if◌then◌else◌, length, keep, length-keep-le, Text, text_beq_iff, text_eq, ◌==◌, nat_eq, ◌<◌, ◌≡◌,
  refl, ◌≢◌, ◌⊎◌, inl, Bool, true, false, not, Option, none, some, List, [], ◌∷◌, arith,
}
use zsync.State.{StateFile, PeerState, upsert, upsert_peer, remove_peer}

-- Whether an address is saved, and enabled.
abbrev pub saved_as : Text → List PeerState → Option Bool
saved_as uri [] = none
saved_as uri (p ∷ ps) = if p.uri == uri then some p.enabled else saved_as uri ps

abbrev pub Unique : List PeerState → Type 0
Unique [] = Unit
Unique (p ∷ ps) = (saved_as p.uri ps ≡ none) × Unique ps

saved_as-upsert :
    (uri other : Text) (enabled : Bool) (ps : List PeerState)
    → saved_as other (upsert uri enabled ps)
      ≡ (if uri == other then some enabled else saved_as other ps)
unfolding upsert
saved_as-upsert uri other enabled [] = refl
saved_as-upsert uri other enabled (p ∷ ps) = ground (
  arith,
  text_beq_iff uri other,
  text_beq_iff p.uri uri,
  text_beq_iff p.uri other,
  saved_as-upsert uri other enabled ps,
)

upsert-Unique :
    (uri : Text) (enabled : Bool) (ps : List PeerState) → Unique ps → Unique (upsert uri enabled ps)
unfolding upsert
upsert-Unique uri enabled [] u = (refl, tt)
upsert-Unique uri enabled (p ∷ ps) (fresh, u) = ground (
  arith,
  text_beq_iff p.uri uri,
  text_beq_iff uri p.uri,
  saved_as-upsert uri p.uri enabled ps,
  upsert-Unique uri enabled ps u,
)

-- After `upsert_peer`, on a file that saves no address twice, the address is saved with the new
-- flag and every other address as before, no address is saved twice, and the sequence number is
-- untouched; a disk that fails is reported, and keeps what it held, and otherwise holds the same
-- state.
pub upsert_peer_lem :
    (f : StateFile) (uri other : Text) (enabled saves : Bool)
    → Unique f.inner.peers
    → let (g, saved) = upsert_peer f uri enabled saves in
      (saved_as other g.inner.peers
        ≡ (if uri == other then some enabled else saved_as other f.inner.peers))
      × Unique g.inner.peers
      × (g.inner.seq ≡ f.inner.seq)
      × (saved ≡ saves)
      × (g.disk ≡ (if saves then some g.inner else f.disk))
unfolding upsert_peer
upsert_peer_lem f uri other enabled true u = (
  saved_as-upsert uri other enabled f.inner.peers,
  upsert-Unique uri enabled f.inner.peers u,
  refl,
  refl,
  refl,
)
upsert_peer_lem f uri other enabled false u = (
  saved_as-upsert uri other enabled f.inner.peers,
  upsert-Unique uri enabled f.inner.peers u,
  refl,
  refl,
  refl,
)

saved_as-keep :
    (uri other : Text) (ps : List PeerState)
    → saved_as other (keep (λ p. not (p.uri == uri)) ps)
      ≡ (if uri == other then none else saved_as other ps)
saved_as-keep uri other [] = ground arith
saved_as-keep uri other (p ∷ ps) = ground (
  arith,
  text_beq_iff uri other,
  text_beq_iff p.uri uri,
  text_beq_iff p.uri other,
  saved_as-keep uri other ps,
)

keep-Unique :
    (uri : Text) (ps : List PeerState) → Unique ps → Unique (keep (λ p. not (p.uri == uri)) ps)
keep-Unique uri [] u = tt
keep-Unique uri (p ∷ ps) (fresh, u) =
    ground (arith, saved_as-keep uri p.uri ps, keep-Unique uri ps u)

-- Removing an address shortens the list exactly if it was saved.
length-keep-saved :
    (uri : Text) (ps : List PeerState)
    → ((saved_as uri ps ≡ none) × (length (keep (λ p. not (p.uri == uri)) ps) ≡ length ps))
      ⊎ ((saved_as uri ps ≢ none) × (length (keep (λ p. not (p.uri == uri)) ps) < length ps))
length-keep-saved uri [] = inl (refl, refl)
length-keep-saved uri (p ∷ ps) =
    ground (arith, length-keep-saved uri ps, length-keep-le (λ p. not (p.uri == uri)) ps)

-- `remove_peer` of one address, on a file that saves no address twice, forgets it and no other,
-- keeps addresses unique, and answers with the address if it was saved and with nothing if it was
-- not; there is no answer if the disk fails.
pub remove_peer_lem :
    (f : StateFile) (uri other : Text) (saves : Bool)
    → Unique f.inner.peers
    → let (g, removed) = remove_peer f (some uri) saves in
      (saved_as other g.inner.peers ≡ (if uri == other then none else saved_as other f.inner.peers))
      × Unique g.inner.peers
      × (removed ≡ (
          if saves
          then some (elim (saved_as uri f.inner.peers) [ none ↦ [] | some _ ↦ uri ∷ [] ])
          else none))
unfolding remove_peer
remove_peer_lem f uri other false u =
    (saved_as-keep uri other f.inner.peers, keep-Unique uri f.inner.peers u, refl)
remove_peer_lem f uri other true u = (
  saved_as-keep uri other f.inner.peers,
  keep-Unique uri f.inner.peers u,
  ground (arith, length-keep-saved uri f.inner.peers),
)
