-- ===== src/Daemon/Dispatch/Disconnect.antt =====
-- Which peers a `disconnect` stops.
use zsync.Base.{
  if◌then◌else◌, Bool-cases, is_empty, All, Bytes, Text, codes, text_beq, text_eq, ◌==◌, nat_eq,
  ◌≡◌, refl, ap, ◌∙◌, subst, inl, inr, Bool, true, false, ◌||◌, Option, none, some, List, [], ◌∷◌,
  map, arith,
}
use zsync.Base.Map.{Map, lookup}
use zsync.Clipboard.{Backend}
use zsync.State.{remove_peer}
use zsync.State.Peers.{saved_as, Unique, remove_peer_lem}
use zsync.Net.{PeerTarget}
use zsync.Daemon.Table.{Runtime, PeerEntry, key_of, stop_peers}
use zsync.Daemon.Table.Stops.{stops, lookup-stop_peers, stop_peers-hub}
use zsync.Daemon.Dispatch.{Request, Reply, disconnect, dispatch, done, plain}

-- The request of `zsync disconnect uri`.
abbrev pub request : Text → Request
request uri = record { action = codes "disconnect"; uri = some uri; mime = none }

module _ (is_ipv6 : Text → Bool) (b64_decode : Text → Option Bytes) where
  -- The key of the entry is what its address is looked up by.
  abbrev pub IsCanonical : Map Text PeerEntry → Type 0
  IsCanonical m = All (λ p. key_of is_ipv6 b64_decode p.0 ≡ p.0) m

  keys_cover :
      (m : Map Text PeerEntry) (k : Text)
      → IsCanonical m
      → stops is_ipv6 b64_decode (map (λ p. p.0) m) k ≡ false
      → lookup k m ≡ none
  unfolding lookup
  keys_cover [] k c h = refl
  keys_cover ((j, p) ∷ m) k (c, cs) h =
      let h' : (text_beq j k || stops is_ipv6 b64_decode (map (λ p. p.0) m) k) ≡ false =
        subst (λ x. (text_beq x k || stops is_ipv6 b64_decode (map (λ p. p.0) m) k) ≡ false) c h in
      ground (arith, keys_cover m k cs)

module _ {B : Type 0} (backend : Backend B) (sha256 : Bytes → Bytes) (is_ipv6 : Text → Bool)
    (b64_decode : Text → Option Bytes) (resolve : PeerTarget → Option PeerTarget) where
  abbrev sent : Runtime B → Text → Reply B
  sent rt uri = dispatch backend sha256 is_ipv6 b64_decode resolve rt (request uri) [] [] 0 0 true

  stopped :
      (rt : Runtime B) (uri : Text) (removed : List Text)
      → (remove_peer rt.hub.state (some uri) true).1 ≡ some removed
      → sent rt uri
        ≡ done (
            stop_peers is_ipv6 b64_decode
              (record rt {
                hub = record (rt.hub) { state = (remove_peer rt.hub.state (some uri) true).0 };
              })
              (if is_empty removed then map (λ p. p.0) rt.peers else removed))
  unfolding dispatch disconnect
  stopped rt uri removed h = rw (h, dispatch, disconnect) refl

  -- `zsync disconnect` of an address that is not among the saved ones as it is written, on a file
  -- that saves no address twice and a disk that takes the write, while every entry of the table
  -- stands under the key that its address has: the answer is positive, and no peer is left in the
  -- table.
  pub disconnect_unknown_stops_all :
      (rt : Runtime B) (uri k : Text)
      → Unique rt.hub.state.inner.peers
      → saved_as uri rt.hub.state.inner.peers ≡ none
      → IsCanonical is_ipv6 b64_decode rt.peers
      → let out =
          dispatch backend sha256 is_ipv6 b64_decode resolve rt (request uri) [] [] 0 0 true in
        (lookup k out.0.peers ≡ none) × (out.1 ≡ plain true none)
  disconnect_unknown_stops_all rt uri k u unsaved canonical =
      let all_keys : Reply B = done (
        stop_peers is_ipv6 b64_decode
          (record rt {
            hub = record (rt.hub) { state = (remove_peer rt.hub.state (some uri) true).0 };
          })
          (map (λ p. p.0) rt.peers)) in
      let same : sent rt uri ≡ all_keys = stopped rt uri [] nothing in
      (
        ap (λ r. lookup k r.0.peers) same
            ∙ lookup-stop_peers is_ipv6 b64_decode _ (map (λ p. p.0) rt.peers) k
            ∙ gone,
        ap (λ r. r.1) same,
      )
    where
      nothing : (remove_peer rt.hub.state (some uri) true).1 ≡ some []
      nothing = (remove_peer_lem rt.hub.state uri uri true u).2 ∙ rw unsaved refl

      gone :
          (if stops is_ipv6 b64_decode (map (λ p. p.0) rt.peers) k then none else lookup k rt.peers)
          ≡ none
      gone = elim (Bool-cases (stops is_ipv6 b64_decode (map (λ p. p.0) rt.peers) k)) [
        | inl y ↦ rw y refl
        | inr n ↦ rw n (keys_cover is_ipv6 b64_decode rt.peers k canonical n)
      ]

  -- `zsync disconnect` of a saved address, on a file that saves no address twice and a disk that
  -- takes the write: the address is no longer saved, the entry with its key leaves the table, and
  -- every other saved address and entry stays.
  pub disconnect_saved :
      (rt : Runtime B) (uri k : Text) (enabled : Bool)
      → Unique rt.hub.state.inner.peers
      → saved_as uri rt.hub.state.inner.peers ≡ some enabled
      → let out =
          dispatch backend sha256 is_ipv6 b64_decode resolve rt (request uri) [] [] 0 0 true in
        (lookup k out.0.peers
          ≡ (if key_of is_ipv6 b64_decode uri == k then none else lookup k rt.peers))
        × (saved_as k out.0.hub.state.inner.peers
            ≡ (if uri == k then none else saved_as k rt.hub.state.inner.peers))
        × (out.1 ≡ plain true none)
  disconnect_saved rt uri k enabled u saved =
      let one : Reply B = done (
        stop_peers is_ipv6 b64_decode
          (record rt {
            hub = record (rt.hub) { state = (remove_peer rt.hub.state (some uri) true).0 };
          })
          (uri ∷ [])) in
      let same : sent rt uri ≡ one = stopped rt uri (uri ∷ []) just in
      (
        ap (λ r. lookup k r.0.peers) same
            ∙ lookup-stop_peers is_ipv6 b64_decode _ (uri ∷ []) k
            ∙ ground arith,
        ap (λ r. saved_as k r.0.hub.state.inner.peers) same
            ∙ ap (λ h. saved_as k h.state.inner.peers)
                (stop_peers-hub is_ipv6 b64_decode _ (uri ∷ []))
            ∙ (remove_peer_lem rt.hub.state uri k true u).0,
        ap (λ r. r.1) same,
      )
    where
      just : (remove_peer rt.hub.state (some uri) true).1 ≡ some (uri ∷ [])
      just = (remove_peer_lem rt.hub.state uri uri true u).2 ∙ rw saved refl
