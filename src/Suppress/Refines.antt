-- ===== src/Suppress/Refines.antt =====
-- `Suppress` against the list of the hashes that were added.
use mathlib.Core.List.{reverse, reverse-append}
use zsync.Base.{
  leb, if◌then◌else◌, Bool-cases, take, is_empty, any, keep, Text, text_beq, text_eq, ◌==◌, nat_eq,
  ℕ, zero, suc, ◌-◌, ◌≤◌, ◌<◌, max, ◌≡◌, refl, sym, ap, ap₂, ◌∙◌, inl, inr, Bool, true, false, not,
  ◌||◌, Option, none, some, List, [], ◌∷◌, ◌++◌, map, arith,
}
use zsync.Base.Map.{Map, lookup, insert, lookup-insert, Distinct}
use zsync.Base.Map.{insert-Distinct}
use zsync.Suppress.{Suppress, new, add, has, gc, trim, in_ring}
use zsync.Suppress.Recent.{add_nothing}
use zsync.Suppress.Log.{
  take-cons-take, any-reverse, reverse-trim, Kept, Kept-trans, trim-Kept, trim-Distinct, gc-Kept,
  gc-Distinct,
}

-- Hashes with the times at which they were added, the newest first.
abbrev pub Log : Type 0
Log = List (Text × ℕ)

-- The table after the calls of a log.
pub run : ℕ → ℕ → Log → Suppress
run ttl m [] = new ttl m
run ttl m ((h, t) ∷ log) = add (run ttl m log) h t

-- An empty hash is never recorded.
abbrev pub recorded : Log → Log
recorded log = keep (λ e. not (is_empty e.0)) log

-- The clock of a log does not go back, and stands at `now` at the end.
abbrev pub Monotone : ℕ → Log → Type 0
Monotone now [] = Unit
Monotone now ((h, t) ∷ log) = (t ≤ now) × Monotone t log

abbrev within : ℕ → ℕ → Option ℕ → Bool
within ttl now none = false
within ttl now (some t) = leb (now - t) ttl

abbrev keys : Log → List Text
keys = map (λ e. e.0)

-- A hash is suppressed if it was added at most `ttl` ago, or is among the last `n` added.
abbrev pub suppressed : ℕ → ℕ → Log → Text → ℕ → Bool
suppressed ttl n log h now = within ttl now (lookup h log) || any (λ g. g == h) (take n (keys log))

record Tracks (s : Suppress) (now : ℕ) (log : Log) : Type 0 where
  ring_eq : reverse s.ring ≡ take s.max (keys log)
  covers : (h : Text) → Kept s.ttl now (lookup h log) (lookup h s.items)
  distinct : Distinct s.items
  roomy : 0 < s.max

new-Tracks : (ttl m now : ℕ) → Tracks (new ttl m) now []
unfolding new lookup
new-Tracks ttl m now = record {
  ring_eq = take-nil (max m 8);
  covers = λ h. inl refl;
  distinct = tt;
  roomy = omega arith;
}
  where
    take-nil : (n : ℕ) → [] ≡ take n (keys [])
    take-nil zero = refl
    take-nil (suc n) = refl

-- Time passes between two calls.
Tracks-later : (s : Suppress) (t now : ℕ) (log : Log) → t ≤ now → Tracks s t log → Tracks s now log
Tracks-later s t now log le v = record {
  ring_eq = v.ring_eq;
  covers = λ h. later (v.covers h);
  distinct = v.distinct;
  roomy = v.roomy;
}
  where
    later : {a b : Option ℕ} → Kept s.ttl t a b → Kept s.ttl now a b
    later (inl e) = inl e
    later (inr (u, e, old, f)) = inr (u, e, omega arith, f)

abbrev after_trim : Suppress → Text → ℕ → List Text × Map Text ℕ
after_trim s h now = trim s.ttl s.max now (s.ring ++ h ∷ []) (insert h now s.items)

covers-insert :
    (s : Suppress) (now : ℕ) (log : Log) (h k : Text)
    → Kept s.ttl now (lookup k log) (lookup k s.items)
    → Kept s.ttl now (lookup k ((h, now) ∷ log)) (lookup k (insert h now s.items))
unfolding lookup
covers-insert s now log h k c = elim (Bool-cases (text_beq h k)) [
  | inl same ↦ rw (lookup-insert h k now s.items, same) (inl refl)
  | inr other ↦ rw (lookup-insert h k now s.items, other) c
]

add-Tracks :
    (s : Suppress) (h : Text) (now : ℕ) (log : Log)
    → is_empty h ≡ false
    → Tracks s now log
    → Tracks (add s h now) now ((h, now) ∷ log)
unfolding add gc
add-Tracks s h now log given v = rw given (record {
  ring_eq =
      reverse-trim s.ttl s.max now (s.ring ++ h ∷ []) (insert h now s.items)
      ∙ ap (take s.max) (reverse-append s.ring (h ∷ []) ∙ ap (◌∷◌ h) v.ring_eq)
      ∙ take-cons-take s.max h (keys log) v.roomy;
  covers = λ k. Kept-trans s.ttl now _ _ _ (covers-insert s now log h k (v.covers k)) (
      Kept-trans s.ttl now _ _ _
        (trim-Kept s.ttl s.max now k (s.ring ++ h ∷ []) (insert h now s.items))
        (unfold gc in
          gc-Kept (record s { items = (after_trim s h now).1; ring = (after_trim s h now).0 }) now k
            trimmed));
  distinct =
      gc-Distinct (record s { items = (after_trim s h now).1; ring = (after_trim s h now).0 }) now
        trimmed;
  roomy = v.roomy;
})
  where
    trimmed : Distinct (after_trim s h now).1
    trimmed =
        trim-Distinct s.ttl s.max now (s.ring ++ h ∷ []) _
          (insert-Distinct h now s.items v.distinct)

run-Tracks :
    (ttl m now : ℕ) (log : Log) → Monotone now log → Tracks (run ttl m log) now (recorded log)
unfolding run
run-Tracks ttl m now [] mono = new-Tracks ttl m now
run-Tracks ttl m now ((h, t) ∷ log) (le, mono) = elim (Bool-cases (is_empty h)) [
  | inl nothing ↦
      rw (nothing, add_nothing (run ttl m log) h t nothing)
        (Tracks-later _ t now _ le (run-Tracks ttl m t log mono))
  | inr given ↦ rw given (
      Tracks-later _ t now _ le
        (add-Tracks (run ttl m log) h t (recorded log) given (run-Tracks ttl m t log mono)))
]

run_settings :
    (ttl m : ℕ) (log : Log) → ((run ttl m log).ttl ≡ ttl) × ((run ttl m log).max ≡ max m 8)
unfolding run new add gc
run_settings ttl m [] = (refl, refl)
run_settings ttl m ((h, t) ∷ log) = ground (arith, run_settings ttl m log)

in_ring-Tracks :
    (s : Suppress) (now : ℕ) (log : Log) (h : Text)
    → Tracks s now log
    → in_ring s.ring h ≡ any (λ g. g == h) (take s.max (keys log))
unfolding in_ring
in_ring-Tracks s now log h v =
    sym (any-reverse (λ g. g == h) s.ring) ∙ ap (any (λ g. g == h)) v.ring_eq

has-Tracks :
    (s : Suppress) (now : ℕ) (log : Log) (h : Text)
    → is_empty h ≡ false
    → Tracks s now log
    → has s h now ≡ suppressed s.ttl s.max log h now
unfolding has
has-Tracks s now log h given v = rw given (
    answer (lookup h log) (lookup h s.items) (in_ring s.ring h) (v.covers h)
    ∙ ap (λ r. within s.ttl now (lookup h log) || r) (in_ring-Tracks s now log h v))
  where
    answer :
        (a b : Option ℕ) (r : Bool)
        → Kept s.ttl now a b
        → (elim b [ none ↦ r | some t ↦ if leb (now - t) s.ttl then true else r ])
          ≡ (within s.ttl now a || r)
    answer a b r k = ground (arith, k)

-- After any calls of `add`, at times that do not go back, a nonempty hash is suppressed exactly
-- when its last `add` was at most `ttl` ago, or it is among the last `max(m, 8)` nonempty hashes
-- that were added.
pub has-run :
    (ttl m : ℕ) (log : Log) (h : Text) (now : ℕ)
    → is_empty h ≡ false
    → Monotone now log
    → has (run ttl m log) h now ≡ suppressed ttl (max m 8) (recorded log) h now
has-run ttl m log h now given mono =
    let (e, f) = run_settings ttl m log in
    has-Tracks (run ttl m log) now (recorded log) h given (run-Tracks ttl m now log mono)
    ∙ ap₂ (λ a b. suppressed a b (recorded log) h now) e f
