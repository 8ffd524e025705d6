-- ===== src/Zsyncd/Probes/Bans.antt =====
-- When an address is banned.
use zsync.Base.{
  ltb, leb, if◌then◌else◌, Bool-cases, length, All, text_eq, ◌==◌, nat_eq, ℕ, suc, ◌+◌, ◌-◌, ◌^◌,
  ◌≤◌, ◌<◌, ◌≡◌, refl, sym, ap, ◌∙◌, inl, inr, false, ◌&&◌, ◌||◌, Option, none, some, List, [], ◌∷◌,
  arith,
}
use zsync.Base.Map.{lookup, remove, eq_refl, lookup-insert, lookup-remove, Distinct}
use zsync.Base.Map.{lookup-retain, insert-Distinct, remove-Distinct}
use zsync.Zsyncd.Probes.{
  ProbeState, ProbeTracker, IpAddr, bans, gc, banned_entry, is_banned, count, fail, clear,
  probe_window, probe_ban, probe_max_fails,
}

-- Failures of one address, the first one first.
unfoldable pub failures : ProbeTracker → IpAddr → List ℕ → ProbeTracker
failures t ip [] = t
failures t ip (x ∷ xs) = failures (fail t ip x) ip xs

-- The clean-up that comes first does not change the answer.
is_banned-lookup :
    (t : ProbeTracker) (ip : IpAddr) (now : ℕ)
    → Distinct t
    → (is_banned t ip now).1 ≡ banned_entry (lookup ip t) now
unfolding is_banned gc
is_banned-lookup t ip now d = rw (lookup-retain _ ip t d) (kept (lookup ip t))
  where
    kept :
        (o : Option ProbeState)
        → banned_entry
            (elim o [
              | none ↦ none
              | some s ↦ if bans s now || leb (now - s.window) probe_window then some s else none
            ])
            now
          ≡ banned_entry o now
    kept none = refl
    kept (some s) = elim (Bool-cases (bans s now || leb (now - s.window) probe_window)) [
      | inl stays ↦ rw stays
      | inr goes ↦ rw goes (ground arith)
    ]

failures-Distinct :
    (t : ProbeTracker) (ip : IpAddr) (xs : List ℕ) → Distinct t → Distinct (failures t ip xs)
unfolding failures fail
failures-Distinct t ip [] d = d
failures-Distinct t ip (x ∷ xs) d = failures-Distinct (fail t ip x) ip xs (insert-Distinct ip _ t d)

-- The ban after failures at these times, where `n` were counted before.
tally : ℕ → Option ℕ → List ℕ → Option ℕ
tally n b [] = b
tally n b (x ∷ xs) =
    tally (suc n) (if leb probe_max_fails (suc n) then some (x + probe_ban) else b) xs

-- All the times lie in the window that opens at `w`.
abbrev pub InWindow : ℕ → List ℕ → Type 0
InWindow w = All (λ x. x - w ≤ probe_window)

count_in_window :
    (s : ProbeState) (x : ℕ)
    → x - s.window ≤ probe_window
    → s.fails + 1 < 2 ^ 32
    → count s x ≡ record s {
      fails = suc s.fails;
      banned_until =
          if leb probe_max_fails (suc s.fails) then some (x + probe_ban) else s.banned_until;
    }
unfolding count
count_in_window s x h k = ground arith

counted :
    (t : ProbeTracker) (ip : IpAddr) (s : ProbeState) (x : ℕ)
    → lookup ip t ≡ some s
    → x - s.window ≤ probe_window
    → s.fails + 1 < 2 ^ 32
    → lookup ip (fail t ip x)
      ≡ some (record s {
        fails = suc s.fails;
        banned_until =
            if leb probe_max_fails (suc s.fails) then some (x + probe_ban) else s.banned_until;
      })
unfolding fail
counted t ip s x e near small =
    lookup-insert ip ip _ t ∙ rw (eq_refl ip, e) (ap some (count_in_window s x near small))

-- The entry of the address after the failures.
lookup-failures :
    (t : ProbeTracker) (ip : IpAddr) (s : ProbeState) (xs : List ℕ)
    → lookup ip t ≡ some s
    → InWindow s.window xs
    → s.fails + length xs < 2 ^ 32
    → (u : ProbeState) × (lookup ip (failures t ip xs) ≡ some u)
      × (u.banned_until ≡ tally s.fails s.banned_until xs)
unfolding failures tally
lookup-failures t ip s [] e w small = (s, e, refl)
lookup-failures t ip s (x ∷ xs) e (near, w) small =
    lookup-failures (fail t ip x) ip
      (record s {
        fails = suc s.fails;
        banned_until =
            if leb probe_max_fails (suc s.fails) then some (x + probe_ban) else s.banned_until;
      })
      xs (counted t ip s x e near (omega arith)) w (omega arith)

abbrev pub last_time : ℕ → List ℕ → ℕ
last_time t [] = t
last_time t (x ∷ xs) = last_time x xs

tally_lem :
    (n : ℕ) (b : Option ℕ) (x : ℕ) (xs : List ℕ)
    → tally n b (x ∷ xs)
      ≡ (if leb probe_max_fails (n + length (x ∷ xs)) then some (last_time x xs + probe_ban) else b)
unfolding tally
tally_lem n b x [] = ground arith
tally_lem n b x (y ∷ ys) =
    tally_lem (suc n) (if leb probe_max_fails (suc n) then some (x + probe_ban) else b) y ys
    ∙ (ground arith)

opened :
    (t : ProbeTracker) (ip : IpAddr) (x : ℕ)
    → lookup ip t ≡ none
    → lookup ip (fail t ip x) ≡ some (record { fails = 1; window = x; banned_until = none })
unfolding fail count
opened t ip x fresh = lookup-insert ip ip _ t ∙ rw (eq_refl ip, fresh) (ground arith)

-- The answer for an entry whose ban is known.
banned_entry-tally :
    (o : Option ProbeState) (x : ℕ) (xs : List ℕ) (now : ℕ)
    → ((u : ProbeState) × (o ≡ some u) × (u.banned_until ≡ tally 0 none (x ∷ xs)))
    → banned_entry o now
      ≡ (leb probe_max_fails (length (x ∷ xs)) && ltb now (last_time x xs + probe_ban))
banned_entry-tally o x xs now (u, e, b) = rw e (step u (b ∙ tally_lem 0 none x xs))
  where
    step :
        (v : ProbeState)
        → v.banned_until ≡ (
            if leb probe_max_fails (0 + length (x ∷ xs))
            then some (last_time x xs + probe_ban)
            else none)
        → bans v now
          ≡ (leb probe_max_fails (length (x ∷ xs)) && ltb now (last_time x xs + probe_ban))
    step v h = ground arith

-- An address without an entry fails at the times `x ∷ xs`, fewer than 2^32, all of them within the
-- window that the first one opens. It is banned at the time `now` if and only if there were eight
-- failures or more and `now` is less than ten minutes after the last one.
pub banned_after_failures :
    (t : ProbeTracker) (ip : IpAddr) (x : ℕ) (xs : List ℕ) (now : ℕ)
    → Distinct t
    → lookup ip t ≡ none
    → InWindow x xs
    → length (x ∷ xs) < 2 ^ 32
    → (is_banned (failures t ip (x ∷ xs)) ip now).1
      ≡ (leb probe_max_fails (length (x ∷ xs)) && ltb now (last_time x xs + probe_ban))
unfolding failures tally
banned_after_failures t ip x xs now d fresh near small =
    is_banned-lookup (failures t ip (x ∷ xs)) ip now (failures-Distinct t ip (x ∷ xs) d)
    ∙ banned_entry-tally _ x xs now (
        lookup-failures (fail t ip x) ip (record { fails = 1; window = x; banned_until = none }) xs
          (opened t ip x fresh) near (omega arith))

lookup-failures_other :
    (t : ProbeTracker) (ip j : IpAddr) (xs : List ℕ)
    → (ip == j) ≡ false
    → lookup j (failures t ip xs) ≡ lookup j t
unfolding failures fail
lookup-failures_other t ip j [] h = refl
lookup-failures_other t ip j (x ∷ xs) h =
    lookup-failures_other (fail t ip x) ip j xs h ∙ lookup-insert ip j _ t ∙ (rw h)

-- Failures of one address do not change the answer for another one. A cleared address is not
-- banned, whatever failed before.
pub bans_are_separate :
    (t : ProbeTracker) (ip j : IpAddr) (xs : List ℕ) (now : ℕ)
    → Distinct t
    → (ip == j) ≡ false
    → ((is_banned (failures t ip xs) j now).1 ≡ (is_banned t j now).1)
      × ((is_banned (clear (failures t ip xs) ip) ip now).1 ≡ false)
unfolding clear
bans_are_separate t ip j xs now d other = (
  is_banned-lookup (failures t ip xs) j now (failures-Distinct t ip xs d)
      ∙ ap (λ o. banned_entry o now) (lookup-failures_other t ip j xs other)
      ∙ sym (is_banned-lookup t j now d),
  is_banned-lookup (remove ip (failures t ip xs)) ip now
        (remove-Distinct ip _ (failures-Distinct t ip xs d))
      ∙ ap (λ o. banned_entry o now) (cleared (failures t ip xs)),
)
  where
    cleared : (u : ProbeTracker) → lookup ip (remove ip u) ≡ none
    cleared u = lookup-remove ip ip u ∙ (rw (eq_refl ip))
