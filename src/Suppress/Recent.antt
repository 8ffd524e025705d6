-- ===== src/Suppress/Recent.antt =====
-- `Suppress::has` after `Suppress::add`.
use mathlib.Core.List.{reverse, reverse-append}
use zsync.Base.{
  Bool-cases, take, is_empty, any, Text, text_eq, ◌==◌, nat_eq, ℕ, zero, suc, ◌<◌, ◌≡◌, ap, ◌∙◌,
  inl, inr, true, false, List, [], ◌∷◌, ◌++◌, arith,
}
use zsync.Base.Map.{insert, eq_refl}
use zsync.Suppress.{Suppress, add, has, gc, in_ring}
use zsync.Suppress.Log.{any-reverse, reverse-trim}

-- The newest entries of the ring come first.
abbrev newest : Suppress → List Text
newest s = reverse s.ring

newest-add :
    (s : Suppress) (h : Text) (now : ℕ)
    → is_empty h ≡ false
    → newest (add s h now) ≡ take s.max (h ∷ newest s)
unfolding add gc
newest-add s h now given = rw given (
    reverse-trim s.ttl s.max now (s.ring ++ h ∷ []) (insert h now s.items)
    ∙ ap (take s.max) (reverse-append s.ring (h ∷ [])))

pub max-add : (s : Suppress) (h : Text) (now : ℕ) → (add s h now).max ≡ s.max
unfolding add gc
max-add s h now = ground arith

has_in_ring :
    (s : Suppress) (h : Text) (now : ℕ)
    → is_empty h ≡ false
    → any (λ g. g == h) (newest s) ≡ true
    → has s h now ≡ true
unfolding has in_ring
has_in_ring s h now given there = ground (arith, any-reverse (λ g. g == h) s.ring)

pub add_nothing : (s : Suppress) (h : Text) (now : ℕ) → is_empty h ≡ true → add s h now ≡ s
unfolding add
add_nothing s h now nothing = rw nothing

-- A hash that was just added is suppressed, however much time passes.
pub has-add :
    (s : Suppress) (h : Text) (now later : ℕ)
    → 0 < s.max
    → is_empty h ≡ false
    → has (add s h now) h later ≡ true
has-add s h now later room given =
    has_in_ring (add s h now) h later given (rw (newest-add s h now given) (first s.max room))
  where
    first : (n : ℕ) → 0 < n → any (λ g. g == h) (take n (h ∷ newest s)) ≡ true
    first zero r = elim r [ ]
    first (suc n) r = rw (eq_refl h)

-- So it is after another hash was added.
pub has-add-add :
    (s : Suppress) (h g : Text) (now mid later : ℕ)
    → 1 < s.max
    → is_empty h ≡ false
    → has (add (add s h now) g mid) h later ≡ true
has-add-add s h g now mid later room given = elim (Bool-cases (is_empty g)) [
  | inl nothing ↦
      rw (add_nothing (add s h now) g mid nothing) (has-add s h now later (omega arith) given)
  | inr other ↦ has_in_ring (add (add s h now) g mid) h later given (
      rw (newest-add (add s h now) g mid other, newest-add s h now given, max-add s h now)
        (second s.max room))
]
  where
    second : (n : ℕ) → 1 < n → any (λ k. k == h) (take n (g ∷ take n (h ∷ newest s))) ≡ true
    second zero r = absurd (omega arith)
    second (suc zero) r = absurd (omega arith)
    second (suc (suc n)) r = rw (eq_refl h) (ground arith)
