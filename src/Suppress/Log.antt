-- ===== src/Suppress/Log.antt =====
-- The steps of `Suppress::add`: what `trim` and `gc` do to the ring and to the items.
use mathlib.Core.List.{reverse, reverse-cons}
use zsync.Base.{
  ltb, leb, if◌then◌else◌, ltb→lt, Bool-cases, Option-cases, length, take, any, length-append,
  any-append, Text, text_beq, text_beq_iff, text_eq, nat_eq, ℕ, zero, suc, ◌-◌, ◌≤◌, ◌<◌, max, ◌≡◌,
  refl, sym, ap, ◌∙◌, subst, ◌⊎◌, inl, inr, Bool, false, ◌||◌, Option, none, some, List, [], ◌∷◌,
  ◌++◌, arith,
}
use zsync.Base.Map.{Map, lookup, lookup-remove, Distinct}
use zsync.Base.Map.{lookup-retain, retain-Distinct, remove-Distinct}
use zsync.Suppress.{Suppress, evict, trim, gc, in_ring}

module _ {ℓ} {A : Type ℓ} where
  length-reverse : (xs : List A) → length (reverse xs) ≡ length xs
  length-reverse [] = refl
  length-reverse (x ∷ xs) =
      omega (
        arith,
        ap length (reverse-cons x xs),
        length-append (reverse xs) (x ∷ []),
        length-reverse xs,
      )

  take-append_le : (n : ℕ) (xs ys : List A) → n ≤ length xs → take n (xs ++ ys) ≡ take n xs
  take-append_le zero xs ys h = refl
  take-append_le (suc n) [] ys h = absurd (omega arith)
  take-append_le (suc n) (x ∷ xs) ys h = ap (◌∷◌ x) (take-append_le n xs ys (omega arith))

  take_all : (n : ℕ) (xs : List A) → length xs ≤ n → take n xs ≡ xs
  take_all zero [] h = refl
  take_all zero (x ∷ xs) h = absurd (omega arith)
  take_all (suc n) [] h = refl
  take_all (suc n) (x ∷ xs) h = ap (◌∷◌ x) (take_all n xs (omega arith))

  pub take-cons-take :
      (n : ℕ) (x : A) (xs : List A) → 0 < n → take n (x ∷ take n xs) ≡ take n (x ∷ xs)
  take-cons-take zero x xs h = elim h [ ]
  take-cons-take (suc n) x xs h = ap (◌∷◌ x) (short n xs)
    where
      short : (n : ℕ) (xs : List A) → take n (take (suc n) xs) ≡ take n xs
      short zero xs = refl
      short (suc n) [] = refl
      short (suc n) (x ∷ xs) = ap (◌∷◌ x) (short n xs)

  pub any-reverse : (p : A → Bool) (xs : List A) → any p (reverse xs) ≡ any p xs
  any-reverse p [] = refl
  any-reverse p (x ∷ xs) =
      rw (reverse-cons x xs) (ground (arith, any-append p (reverse xs) (x ∷ []), any-reverse p xs))

-- What is left of the ring is its last `max` entries.
pub reverse-trim :
    (ttl max now : ℕ) (ring : List Text) (items : Map Text ℕ)
    → reverse (trim ttl max now ring items).0 ≡ take max (reverse ring)
unfolding trim
reverse-trim ttl max now [] items = sym (take_all max [] (omega arith))
reverse-trim ttl max now (old ∷ rest) items = elim (Bool-cases (ltb max (length (old ∷ rest)))) [
  | inl long ↦
      rw (long, reverse-trim ttl max now rest (evict ttl now old items), reverse-cons old rest)
        (sym (take-append_le max (reverse rest) (old ∷ []) (room (ltb→lt _ _ long))))
  | inr short ↦ rw short (sym (take_all max (reverse (old ∷ rest)) (fits short)))
]
  where
    room : max < suc (length rest) → max ≤ length (reverse rest)
    room h = omega (arith, length-reverse rest)

    fits : ltb max (length (old ∷ rest)) ≡ false → length (reverse (old ∷ rest)) ≤ max
    fits h = ground (arith, length-reverse (old ∷ rest))

-- An entry that is gone has expired.
abbrev pub Kept : ℕ → ℕ → Option ℕ → Option ℕ → Type 0
Kept ttl now before after =
    (after ≡ before) ⊎ ((t : ℕ) × (before ≡ some t) × (ttl < now - t) × (after ≡ none))

pub Kept-trans :
    (ttl now : ℕ) (a b c : Option ℕ) → Kept ttl now a b → Kept ttl now b c → Kept ttl now a c
Kept-trans ttl now a b c (inl e) (inl f) = inl (f ∙ e)
Kept-trans ttl now a b c (inl e) (inr (t, f, old, g)) = inr (t, sym e ∙ f, old, g)
Kept-trans ttl now a b c (inr (t, e, old, g)) (inl f) = inr (t, e, old, f ∙ g)
Kept-trans ttl now a b c (inr (t, e, old, g)) (inr (u, f, _, k)) = inr (t, e, old, k)

evict-Kept :
    (ttl now : ℕ) (old h : Text) (items : Map Text ℕ)
    → Kept ttl now (lookup h items) (lookup h (evict ttl now old items))
unfolding evict
evict-Kept ttl now old h items = elim (Option-cases (lookup old items)) [
  | inl e ↦ rw (e, evict) (inl refl)
  | inr (t, e) ↦ elim (Bool-cases (ltb ttl (now - t))) [
    | inl expired ↦
        rw (e, evict, expired, lookup-remove old h items)
          (elim (Bool-cases (text_beq old h)) [
            | inl same ↦ rw same (
                inr (
                  t,
                  subst (λ k. lookup k items ≡ some t) ((text_beq_iff old h).0 same) e,
                  ltb→lt _ _ expired,
                  refl,
                ))
            | inr other ↦ rw other (inl refl)
          ])
    | inr live ↦ rw (e, evict, live) (inl refl)
  ]
]

pub trim-Kept :
    (ttl max now : ℕ) (h : Text) (ring : List Text) (items : Map Text ℕ)
    → Kept ttl now (lookup h items) (lookup h (trim ttl max now ring items).1)
unfolding trim
trim-Kept ttl max now h [] items = inl refl
trim-Kept ttl max now h (old ∷ rest) items = elim (Bool-cases (ltb max (length (old ∷ rest)))) [
  | inl long ↦ rw long (
      Kept-trans ttl now _ _ _ (evict-Kept ttl now old h items)
        (trim-Kept ttl max now h rest (evict ttl now old items)))
  | inr short ↦ rw short (inl refl)
]

evict-Distinct :
    (ttl now : ℕ) (old : Text) (items : Map Text ℕ)
    → Distinct items
    → Distinct (evict ttl now old items)
unfolding evict
evict-Distinct ttl now old items d = elim (Option-cases (lookup old items)) [
  | inl e ↦ rw (e, evict) d
  | inr (t, e) ↦ elim (Bool-cases (ltb ttl (now - t))) [
    | inl expired ↦ rw (e, evict, expired) (remove-Distinct old items d)
    | inr live ↦ rw (e, evict, live) d
  ]
]

pub trim-Distinct :
    (ttl max now : ℕ) (ring : List Text) (items : Map Text ℕ)
    → Distinct items
    → Distinct (trim ttl max now ring items).1
unfolding trim
trim-Distinct ttl max now [] items d = d
trim-Distinct ttl max now (old ∷ rest) items d = elim (Bool-cases (ltb max (length (old ∷ rest)))) [
  | inl long ↦ rw long (trim-Distinct ttl max now rest _ (evict-Distinct ttl now old items d))
  | inr short ↦ rw short d
]

pub gc-Kept :
    (s : Suppress) (now : ℕ) (h : Text)
    → Distinct s.items
    → Kept s.ttl now (lookup h s.items) (lookup h (gc s now).items)
unfolding gc
gc-Kept s now h d = rw (lookup-retain _ h s.items d) (kept (lookup h s.items))
  where
    kept :
        (o : Option ℕ)
        → Kept s.ttl now o (elim o [
          | none ↦ none
          | some t ↦ if leb (now - t) s.ttl || in_ring s.ring h then some t else none
        ])
    kept none = inl refl
    kept (some t) = elim (Bool-cases (leb (now - t) s.ttl || in_ring s.ring h)) [
      | inl stays ↦ rw stays (inl refl)
      | inr goes ↦ rw goes (inr (t, refl, ground arith, refl))
    ]

pub gc-Distinct : (s : Suppress) (now : ℕ) → Distinct s.items → Distinct (gc s now).items
unfolding gc
gc-Distinct s now = retain-Distinct _ s.items
