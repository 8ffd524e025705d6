-- ===== src/Zsyncd/Rooms/Sessions.antt =====
-- The sessions of a group, after any sequence of operations.
use zsync.Base.{
  if◌then◌else◌, Bool-cases, Option-cases, is_empty, any, keep, any-append, Text, text_beq,
  text_beq_iff, text_eq, ◌==◌, nat_eq, ◌≡◌, refl, sym, ap, ◌∙◌, subst, inl, inr, Bool, true, false,
  not, Option, none, some, List, [], ◌∷◌, ◌++◌, map, arith,
}
use zsync.Base.Map.{lookup, insert, remove, lookup-insert, lookup-remove}
use zsync.Zsyncd.Rooms.{
  Member, Rooms, is_device, room, detach, replaced, join, leave, kick, kicked, kick_group,
}

-- No two of the members are one device.
abbrev pub Unique : List Member → Type 0
Unique [] = Unit
Unique (m ∷ ms) = (any (is_device m.device_id) ms ≡ false) × Unique ms

any-keep : (p q : Member → Bool) (ms : List Member) → any q ms ≡ false → any q (keep p ms) ≡ false
any-keep p q [] h = refl
any-keep p q (m ∷ ms) h = elim (Bool-cases (p m)) [
  | inl stays ↦ rw stays (ground (arith, any-keep p q ms))
  | inr goes ↦ rw goes (ground (arith, any-keep p q ms))
]

pub keep-Unique : (p : Member → Bool) (ms : List Member) → Unique ms → Unique (keep p ms)
keep-Unique p [] u = tt
keep-Unique p (m ∷ ms) (alone, u) = elim (Bool-cases (p m)) [
  | inl stays ↦ rw stays (any-keep p (is_device m.device_id) ms alone, keep-Unique p ms u)
  | inr goes ↦ rw goes (keep-Unique p ms u)
]

pub keep-gone :
    (d : Text) (ms : List Member) → any (is_device d) (keep (λ m. not (is_device d m)) ms) ≡ false
keep-gone d [] = refl
keep-gone d (m ∷ ms) = elim (Bool-cases (is_device d m)) [
  | inl goes ↦ rw goes (keep-gone d ms)
  | inr stays ↦ rw (stays, stays) (keep-gone d ms)
]

pub keep-absent :
    (d : Text) (ms : List Member)
    → any (is_device d) ms ≡ false
    → keep (λ m. not (is_device d m)) ms ≡ ms
keep-absent d [] h = refl
keep-absent d (m ∷ ms) h = ground (arith, keep-absent d ms)

keep-none :
    (d : Text) (ms : List Member) → any (is_device d) ms ≡ false → keep (is_device d) ms ≡ []
keep-none d [] h = refl
keep-none d (m ∷ ms) h = ground (arith, keep-none d ms)

replaced_other :
    (d : Text) (m : Member) (ms : List Member)
    → is_device d m ≡ false
    → replaced d (m ∷ ms) ≡ (m ∷ (replaced d ms).0, (replaced d ms).1)
unfolding detach
replaced_other d m ms other = elim (Option-cases (detach d ms)) [
  | inl e ↦ ground arith
  | inr (found, e) ↦ ground arith
]

replaced_same :
    (d : Text) (m : Member) (ms : List Member)
    → is_device d m ≡ true
    → replaced d (m ∷ ms) ≡ (ms, m.stop ∷ [])
unfolding detach
replaced_same d m ms same = ground arith

-- With unique members, the first of a device is the only one.
pub replaced-keep :
    (d : Text) (ms : List Member)
    → Unique ms
    → replaced d ms
      ≡ (keep (λ m. not (is_device d m)) ms, map (λ m. m.stop) (keep (is_device d) ms))
unfolding detach
replaced-keep d [] u = refl
replaced-keep d (m ∷ ms) (alone, u) = elim (Bool-cases (is_device d m)) [
  | inl same ↦
      let gone : any (is_device d) ms ≡ false =
        subst (λ e. any (is_device e) ms ≡ false) ((text_beq_iff m.device_id d).0 same) alone in
      replaced_same d m ms same ∙ (rw same (rw (keep-absent d ms gone, keep-none d ms gone) refl))
  | inr other ↦
      replaced_other d m ms other ∙ (rw other (ap (λ p. (m ∷ p.0, p.1)) (replaced-keep d ms u)))
]

same_device : (a b : Text) → text_beq a b ≡ text_beq b a
same_device a b = ground (arith, text_beq_iff a b, text_beq_iff b a)

pub append-Unique :
    (ms : List Member) (m : Member)
    → Unique ms
    → any (is_device m.device_id) ms ≡ false
    → Unique (ms ++ (m ∷ []))
append-Unique [] m u h = (refl, tt)
append-Unique (x ∷ ms) m (alone, u) h = (
  ground
      (arith, any-append (is_device x.device_id) ms (m ∷ []), same_device x.device_id m.device_id),
  append-Unique ms m u (ground arith),
)

room-insert :
    (gid j : Text) (ms : List Member) (r : Rooms)
    → room j (insert gid ms r) ≡ (if gid == j then ms else room j r)
room-insert gid j ms r =
    ap (λ o. elim o [ none ↦ [] | some ns ↦ ns ]) (lookup-insert gid j ms r) ∙ (ground arith)

room-remove :
    (gid j : Text) (r : Rooms) → room j (remove gid r) ≡ (if gid == j then [] else room j r)
room-remove gid j r =
    ap (λ o. elim o [ none ↦ [] | some ns ↦ ns ]) (lookup-remove gid j r) ∙ (ground arith)

abbrev pub others : Text → List Member → List Member
others d ms = keep (λ m. not (is_device d m)) ms

pub room-join :
    (r : Rooms) (gid j : Text) (m : Member)
    → Unique (room gid r)
    → room j (join r gid m).0
      ≡ (if gid == j then others m.device_id (room gid r) ++ (m ∷ []) else room j r)
unfolding join
room-join r gid j m u =
    room-insert gid j _ r
    ∙ ap (λ ms. if gid == j then ms ++ (m ∷ []) else room j r)
        (ap (λ p. p.0) (replaced-keep m.device_id (room gid r) u))

is_empty_lem : (ms : List Member) → is_empty ms ≡ true → ms ≡ []
is_empty_lem [] h = refl
is_empty_lem (m ∷ ms) h = ground arith

room_itself : (r : Rooms) (gid j : Text) → room j r ≡ (if gid == j then room gid r else room j r)
room_itself r gid j = elim (Bool-cases (gid == j)) [
  | inl same ↦ rw same (ap (λ k. room k r) (sym ((text_beq_iff gid j).0 same)))
  | inr other ↦ rw other refl
]

room_found :
    (r : Rooms) (gid j : Text) (o : Option (List Member))
    → lookup gid r ≡ o
    → room j r ≡ (if gid == j then elim o [ none ↦ [] | some ms ↦ ms ] else room j r)
room_found r gid j o e =
    room_itself r gid j
    ∙ ap (λ x. if gid == j then elim x [ none ↦ [] | some ms ↦ ms ] else room j r) e

pub room-leave :
    (r : Rooms) (gid j d : Text)
    → room j (leave r gid d).0 ≡ (if gid == j then others d (room gid r) else room j r)
unfolding leave
room-leave r gid j d = elim (Option-cases (lookup gid r)) [
  | inl e ↦ rw (leave, room, e) (room_found r gid j none e)
  | inr (ms, e) ↦
      rw (leave, room, e)
        (elim (Bool-cases (is_empty (others d ms))) [
          | inl gone ↦ rw gone (room-remove gid j r ∙ (rw (is_empty_lem _ gone) refl))
          | inr stay ↦ rw stay (room-insert gid j (others d ms) r)
        ])
]

-- The queues of the members who leave are closed.
pub leave-closed :
    (r : Rooms) (gid d : Text)
    → (leave r gid d).1 ≡ map (λ m. m.tx) (keep (is_device d) (room gid r))
unfolding leave
leave-closed r gid d = elim (Option-cases (lookup gid r)) [
  | inl e ↦ rw (leave, room, e) refl
  | inr (ms, e) ↦
      rw (leave, room, e)
        (elim (Bool-cases (is_empty (others d ms))) [
          | inl gone ↦ rw gone refl
          | inr stay ↦ rw stay refl
        ])
]

pub room-kick :
    (r : Rooms) (gid j d : Text)
    → Unique (room gid r)
    → room j (kick r gid d).0 ≡ (if gid == j then others d (room gid r) else room j r)
unfolding kick
room-kick r gid j d u = elim (Option-cases (lookup gid r)) [
  | inl e ↦ rw (kick, room, e) (room_found r gid j none e)
  | inr (ms, e) ↦
      let unique : Unique ms = subst (λ o. Unique (elim o [ none ↦ [] | some ns ↦ ns ])) e u in
      rw (kick, room, e) (detached ms e (replaced-keep d ms unique))
]
  where
    detached :
        (ms : List Member)
        → lookup gid r ≡ some ms
        → replaced d ms ≡ (others d ms, map (λ m. m.stop) (keep (is_device d) ms))
        → room j (kicked r gid (detach d ms)).0 ≡ (if gid == j then others d ms else room j r)
    detached ms e h = elim (Option-cases (detach d ms)) [
      | inl absent ↦
          let same : ms ≡ others d ms = ap (λ p. p.0) (rw (replaced, absent) at h) in
          rw absent
            (room_found r gid j (some ms) e ∙ ap (λ ns. if gid == j then ns else room j r) same)
      | inr (found, present) ↦
          let same : found.1 ≡ others d ms = ap (λ p. p.0) (rw (replaced, present) at h) in
          rw present
            (room-insert gid j found.1 r ∙ ap (λ ns. if gid == j then ns else room j r) same)
    ]

pub room-kick_group :
    (r : Rooms) (gid j : Text) → room j (kick_group r gid).0 ≡ (if gid == j then [] else room j r)
unfolding kick_group
room-kick_group r gid j = elim (Option-cases (lookup gid r)) [
  | inl e ↦ rw (kick_group, room, e) (room_found r gid j none e)
  | inr (ms, e) ↦ rw (kick_group, room, e) (room-remove gid j r)
]
