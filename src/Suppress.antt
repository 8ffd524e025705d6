-- ===== src/Suppress.antt =====
-- src/suppress.rs: the hashes of clips that were just applied, and the sequence numbers seen.
-- A time is a number of milliseconds; every call reads the clock once, as its argument `now`.
-- `Instant::elapsed` saturates at zero, as subtraction on ℕ does.
pub mod Log
pub mod Refines
pub mod Recent
pub mod Seen
mod Examples
use zsync.Base.{
  ltb, leb, eqb, if◌then◌else◌, ltb→lt, lt→ltb, le→ltb, leb→le, eqb_iff, Bool-cases, Option-cases,
  length, get_or, take, drop, replicate, is_empty, any, all, keep, All, length-append, length-drop,
  length-take, take-append, drop-append, take-append-drop, take-length, any-append, length-keep-le,
  Bytes, Text, codes, text_beq, text_beq_iff, text_eq, starts_with, utf8_width, text_len, ◌>>=◌,
  ◌>>◌, fail_if, or_fail, Result, Eq, ◌==◌, nat_eq, ok, err, ℕ, zero, suc, ◌+◌, ◌-◌, ◌*◌, ◌/◌, ◌%◌,
  ◌^◌, ◌≤◌, ◌<◌, min, max, ◌≡◌, refl, sym, ap, ap₂, ◌∙◌, subst, ◌≢◌, ◌↔◌, ◌⊎◌, inl, inr, Bool, true,
  false, not, ◌&&◌, ◌||◌, Option, none, some, List, [], ◌∷◌, ◌++◌, map, append_assoc, append-nil,
  arith,
}
use zsync.Base.Map.{
  Map, lookup, insert, remove, retain, eq_refl, lookup-insert, lookup-remove, Distinct,
}

pub record Suppress : Type 0 where
  pub ttl : ℕ
  pub max : ℕ
  pub items : Map Text ℕ
  pub ring : List Text

unfoldable pub new : ℕ → ℕ → Suppress
new ttl m = record { ttl = ttl; max = max m 8; items = []; ring = [] }

pub in_ring : List Text → Text → Bool
in_ring ring hash = any (λ g. g == hash) ring

-- The entry of a hash that left the ring goes if it has expired.
pub evict : ℕ → ℕ → Text → Map Text ℕ → Map Text ℕ
evict ttl now old items = elim (lookup old items) [
  | none ↦ items
  | some t ↦ if ltb ttl (now - t) then remove old items else items
]

-- `while self.ring.len() > self.max`, over the ring and the items.
pub trim : ℕ → ℕ → ℕ → List Text → Map Text ℕ → List Text × Map Text ℕ
trim ttl max now [] items = ([], items)
trim ttl max now (old ∷ rest) items =
    let shorter = trim ttl max now rest (evict ttl now old items) in
    if ltb max (length (old ∷ rest)) then shorter else (old ∷ rest, items)

pub gc : Suppress → ℕ → Suppress
unfolding in_ring
gc s now = record s { items = retain (λ h t. leb (now - t) s.ttl || in_ring s.ring h) s.items }

pub add : Suppress → Text → ℕ → Suppress
unfolding trim evict gc
add s hash now =
    let (ring, items) = trim s.ttl s.max now (s.ring ++ hash ∷ []) (insert hash now s.items) in
    let added = gc (record s { items = items; ring = ring }) now in
    if is_empty hash then s else added

unfoldable pub has : Suppress → Text → ℕ → Bool
unfolding in_ring
has s hash now = if is_empty hash then false else elim (lookup hash s.items) [
  | none ↦ in_ring s.ring hash
  | some t ↦ if leb (now - t) s.ttl then true else in_ring s.ring hash
]
