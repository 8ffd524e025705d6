-- ===== src/Daemon/Redial/Delays.antt =====
-- How long a loop waits between two attempts, and how long an error is.
use zsync.Base.{
  ltb, leb, if◌then◌else◌, leb→le, Bool-cases, length, take, Text, codes, text_eq, utf8_width,
  text_len, Result, nat_eq, ok, err, ℕ, zero, suc, ◌+◌, ◌*◌, ◌^◌, ◌≤◌, min, ◌≡◌, refl, sym, ap, ◌∙◌,
  inl, inr, Bool, true, false, Option, none, some, List, [], ◌∷◌, ◌++◌, map, arith,
}
use native.Mathlib.Nat.{mul_assoc, mul-le-mul_right, pow-succ'}
use zsync.Daemon.Redial.{
  Dialler, Attempt, shortened, short_err, is_stop, with_state, attempted, wait, relay_round,
  tcp_round, maintain,
}

abbrev pub Within : Dialler → Type 0
Within d = (1000 ≤ d.delay) × (d.delay ≤ 30000)

attempted-Within : (d : Dialler) (r : Result Text (Unit {0})) → Within d → Within (attempted d r)
unfolding attempted
attempted-Within d (ok x) h = (omega arith, omega arith)
attempted-Within d (err e) h = h

wait-Within : (d : Dialler) (woken : Option Bool) → Within d → Within (wait d woken)
unfolding wait
wait-Within d woken (low, high) = elim (Bool-cases (is_stop woken)) [
  | inl y ↦ rw (y, wait) (low, high)
  | inr n ↦ rw (n, wait) (omega arith, omega arith)
]

if-Within : (b : Bool) (d e : Dialler) → Within d → Within e → Within (if b then d else e)
if-Within true d e h k = h
if-Within false d e h k = k

relay_round-Within : (d : Dialler) (a : Attempt) → Within d → Within (relay_round d a)
unfolding relay_round
relay_round-Within d a h =
    let tried = attempted-Within (with_state d (codes "connecting")) a.result h in
    if-Within a.stop_before _ _ h (
      if-Within a.stop_after _ _ tried (
        wait-Within
          (with_state (attempted (with_state d (codes "connecting")) a.result)
            (codes "reconnecting"))
          a.woken tried))

tcp_round-Within :
    (d : Dialler) (live : Bool) (a : Attempt) → Within d → Within (tcp_round d live a)
unfolding tcp_round
tcp_round-Within d live a h =
    if-Within a.stop_before _ _ h
      (if-Within live _ _ (if-Within (is_stop a.woken) _ _ h h) (relay_round-Within d a h))

-- Whatever happens, the wait between two attempts stays between one second and half a minute.
pub delay_within_bounds :
    (d : Dialler) (rounds : List (Bool × Attempt))
    → 1000 ≤ d.delay
    → d.delay ≤ 30000
    → (1000 ≤ (maintain d rounds).delay) × ((maintain d rounds).delay ≤ 30000)
unfolding maintain
delay_within_bounds d [] low high = (low, high)
delay_within_bounds d ((live, a) ∷ rest) low high =
    let next =
      if-Within d.over d (tcp_round d live a) (low, high) (tcp_round-Within d live a (low, high)) in
    delay_within_bounds (if d.over then d else tcp_round d live a) rest next.0 next.1

-- An attempt that fails, while nothing stops the loop.
abbrev pub failing : Text → Bool × Attempt
failing e =
    (false, record { stop_before = false; result = err e; stop_after = false; woken = none })

capped : (x : ℕ) → 30000 ≤ x → min x 30000 ≡ 30000
capped x h = omega arith

doubled_again : (a p : ℕ) → 1 ≤ p → min (min (a * 2) 30000 * p) 30000 ≡ min (a * (2 * p)) 30000
doubled_again a p positive = elim (Bool-cases (leb (a * 2) 30000)) [
  | inl low ↦
      let small : min (a * 2) 30000 ≡ a * 2 = omega (arith, leb→le (a * 2) 30000 low) in
      rw (small, mul_assoc a 2 p) refl
  | inr high ↦
      let large : 30000 ≤ a * 2 = ground (arith, high) in
      rw (capped (a * 2) large)
        (capped (30000 * p) (omega (arith, positive)) ∙ sym (capped (a * (2 * p)) (grown large)))
]
  where
    grown : 30000 ≤ a * 2 → 30000 ≤ a * (2 * p)
    grown large = rw⁻¹ (mul_assoc a 2 p) (omega (arith, mul-le-mul_right p large, positive))

power_positive : (n : ℕ) → 1 ≤ 2 ^ n
power_positive zero = omega arith
power_positive (suc n) = omega (arith, power_positive n)

-- After attempts that all failed, from a wait of at most half a minute and in a loop that is not
-- over, the wait has doubled with each, up to half a minute, and the loop is not over.
pub delay_doubles :
    (d : Dialler) (errors : List Text)
    → d.over ≡ false
    → d.delay ≤ 30000
    → ((maintain d (map failing errors)).delay ≡ min (d.delay * 2 ^ length errors) 30000)
      × ((maintain d (map failing errors)).over ≡ false)
unfolding maintain tcp_round relay_round attempted wait
delay_doubles d [] on high = (omega arith, on)
delay_doubles d (e ∷ es) on high =
    let next : Dialler = record (with_state d (codes "reconnecting")) {
      status = record (d.status) { state = codes "reconnecting"; last_error = some (short_err e) };
      delay = min (d.delay * 2) 30000;
    } in
    let (doubles, goes_on) = delay_doubles next es on (omega arith) in
    let step : maintain d (map failing (e ∷ es)) ≡ maintain next (map failing es) =
      ap (λ b. maintain (if b then d else next) (map failing es)) on in
    (
      ap (λ m. m.delay) step
          ∙ doubles
          ∙ doubled_again d.delay (2 ^ length es) (power_positive (length es))
          ∙ ap (λ q. min (d.delay * q) 30000) (sym (pow-succ' 2 (length es))),
      ap (λ m. m.over) step ∙ goes_on,
    )

shortened-fits : (used : ℕ) (s : Text) → used ≤ 200 → used + text_len (shortened used s) ≤ 200
unfolding shortened
shortened-fits used [] h = omega arith
shortened-fits used (c ∷ s) h = ground (arith, shortened-fits (used + utf8_width c) s)

shortened-take : (used : ℕ) (s : Text) → shortened used s ≡ take (length (shortened used s)) s
unfolding shortened
shortened-take used [] = refl
shortened-take used (c ∷ s) = ground (arith, shortened-take (used + utf8_width c) s)

text_len-append : (s t : Text) → text_len (s ++ t) ≡ text_len s + text_len t
text_len-append [] t = omega arith
text_len-append (c ∷ s) t = omega (arith, text_len-append s t)

-- An error of at most 200 bytes is kept as it is. Of a longer one, as many of the first characters
-- are kept as fit into 200 bytes, with an ellipsis; it takes at most 203 bytes.
pub short_err_lem :
    (s : Text)
    → (text_len (short_err s) ≤ 203)
      × (short_err s
          ≡ (if leb (text_len s) 200 then s else take (length (shortened 0 s)) s ++ codes "…"))
unfolding short_err
short_err_lem s = elim (Bool-cases (ltb 200 (text_len s))) [
  | inl long ↦ rw long (
    omega (arith, shortened-fits 0 s, text_len-append (shortened 0 s) (codes "…")),
    rw (too_long long) (ap (λ x. x ++ codes "…") (shortened-take 0 s)),
  )
  | inr short ↦ rw short (ground arith, ground arith)
]
  where
    too_long : ltb 200 (text_len s) ≡ true → leb (text_len s) 200 ≡ false
    too_long h = ground (arith, h)
