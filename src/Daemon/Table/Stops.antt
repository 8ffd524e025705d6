-- ===== src/Daemon/Table/Stops.antt =====
-- What `stop_peer` takes out of the table.
use zsync.Base.{
  if◌then◌else◌, Bool-cases, Option-cases, any, Bytes, Text, text_beq, text_beq_iff, text_eq, ◌==◌,
  nat_eq, ◌≡◌, refl, ap, ◌∙◌, subst, inl, inr, Bool, Option, none, List, [], ◌∷◌, arith,
}
use zsync.Base.Map.{lookup, lookup-remove}
use zsync.Daemon.Table.{Runtime, key_of, stop_peer, stop_peers}

module _ (is_ipv6 : Text → Bool) (b64_decode : Text → Option Bytes) where
  abbrev key : Text → Text
  key = key_of is_ipv6 b64_decode

  -- Whether one of the addresses has this key.
  abbrev pub stops : List Text → Text → Bool
  stops us k = any (λ u. key_of is_ipv6 b64_decode u == k) us

module _ (is_ipv6 : Text → Bool) (b64_decode : Text → Option Bytes) {B : Type 0} where
  -- `stop_peer` takes out the entry of the address, and no other.
  pub lookup-stop_peer :
      (rt : Runtime B) (uri k : Text)
      → lookup k (stop_peer is_ipv6 b64_decode rt uri).peers
        ≡ (if key_of is_ipv6 b64_decode uri == k then none else lookup k rt.peers)
  unfolding stop_peer
  lookup-stop_peer rt uri k = elim (Option-cases (lookup (key is_ipv6 b64_decode uri) rt.peers)) [
    | inl missing ↦
        rw (missing, stop_peer)
          (elim (Bool-cases (text_beq (key is_ipv6 b64_decode uri) k)) [
            | inl same ↦ rw same (
                subst (λ x. lookup x rt.peers ≡ none)
                  ((text_beq_iff (key is_ipv6 b64_decode uri) k).0 same) missing)
            | inr other ↦ rw other refl
          ])
    | inr (p, there) ↦ rw (there, stop_peer) (lookup-remove (key is_ipv6 b64_decode uri) k rt.peers)
  ]

  pub lookup-stop_peers :
      (rt : Runtime B) (us : List Text) (k : Text)
      → lookup k (stop_peers is_ipv6 b64_decode rt us).peers
        ≡ (if stops is_ipv6 b64_decode us k then none else lookup k rt.peers)
  unfolding stop_peers
  lookup-stop_peers rt [] k = refl
  lookup-stop_peers rt (u ∷ us) k =
      lookup-stop_peers (stop_peer is_ipv6 b64_decode rt u) us k
      ∙ ap (λ o. if stops is_ipv6 b64_decode us k then none else o) (lookup-stop_peer rt u k)
      ∙ ground arith

  stop_peer-hub : (rt : Runtime B) (uri : Text) → (stop_peer is_ipv6 b64_decode rt uri).hub ≡ rt.hub
  unfolding stop_peer
  stop_peer-hub rt uri = elim (Option-cases (lookup (key is_ipv6 b64_decode uri) rt.peers)) [
    | inl missing ↦ rw (missing, stop_peer) refl
    | inr (p, there) ↦ rw (there, stop_peer) refl
  ]

  pub stop_peers-hub :
      (rt : Runtime B) (us : List Text) → (stop_peers is_ipv6 b64_decode rt us).hub ≡ rt.hub
  unfolding stop_peers
  stop_peers-hub rt [] = refl
  stop_peers-hub rt (u ∷ us) =
      stop_peers-hub (stop_peer is_ipv6 b64_decode rt u) us ∙ stop_peer-hub rt u
