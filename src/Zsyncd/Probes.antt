-- ===== src/Zsyncd/Probes.antt =====
-- `ProbeTracker`: failed handshakes of an address, and the ban that follows. Times are in
-- milliseconds, and `duration_since` saturates. Of an `IpAddr` only its equality is used.
pub mod Bans
use zsync.Base.{
  ltb, leb, eqb, if◌then◌else◌, ltb→lt, lt→ltb, le→ltb, leb→le, eqb_iff, Bool-cases, Option-cases,
  length, get_or, take, drop, replicate, is_empty, any, all, keep, All, length-append, length-drop,
  length-take, take-append, drop-append, take-append-drop, take-length, any-append, length-keep-le,
  Bytes, Text, codes, text_beq, text_beq_iff, text_eq, starts_with, utf8_width, text_len, ◌>>=◌,
  ◌>>◌, fail_if, or_fail, Result-cases, Result, Eq, ◌==◌, nat_eq, ok, err, ℕ, zero, suc, ◌+◌, ◌-◌,
  ◌*◌, ◌/◌, ◌%◌, ◌^◌, ◌≤◌, ◌<◌, min, max, ◌≡◌, refl, sym, ap, ap₂, ◌∙◌, subst, ◌≢◌, ◌↔◌, ◌⊎◌, inl,
  inr, Bool, true, false, not, ◌&&◌, ◌||◌, Option, none, some, List, [], ◌∷◌, ◌++◌, map,
  append_assoc, append-nil, arith,
}
use zsync.Base.Map.{
  Map, lookup, insert, remove, retain, eq_refl, lookup-insert, lookup-remove, Distinct,
}

abbrev pub probe_window : ℕ
probe_window = 60 * 1000

abbrev pub probe_max_fails : ℕ
probe_max_fails = 8

abbrev pub probe_ban : ℕ
probe_ban = 10 * 60 * 1000

pub record ProbeState : Type 0 where
  pub fails : ℕ
  pub window : ℕ
  pub banned_until : Option ℕ

-- `banned_until.map(|t| now < t).unwrap_or(false)`.
abbrev pub bans : ProbeState → ℕ → Bool
bans s now = elim s.banned_until [ none ↦ false | some t ↦ ltb now t ]

-- An address, by its text.
abbrev pub IpAddr : Type 0
IpAddr = Text

abbrev pub ProbeTracker : Type 0
ProbeTracker = Map IpAddr ProbeState

unfoldable pub gc : ProbeTracker → ℕ → ProbeTracker
gc t now = retain (λ ip s. bans s now || leb (now - s.window) probe_window) t

abbrev pub banned_entry : Option ProbeState → ℕ → Bool
banned_entry none now = false
banned_entry (some s) now = bans s now

unfoldable pub is_banned : ProbeTracker → IpAddr → ℕ → ProbeTracker × Bool
unfolding gc
is_banned t ip now = let t' = gc t now in (t', banned_entry (lookup ip t') now)

-- One more failure for an entry; the counter is a u32.
unfoldable pub count : ProbeState → ℕ → ProbeState
count s now =
    let s' : ProbeState =
      (if ltb probe_window (now - s.window) then record s { fails = 0; window = now } else s) in
    let n = (s'.fails + 1) % 2 ^ 32 in
    if leb probe_max_fails n
    then record s' { fails = n; banned_until = some (now + probe_ban) }
    else record s' { fails = n }

unfoldable pub fail : ProbeTracker → IpAddr → ℕ → ProbeTracker
fail t ip now =
    let fresh : ProbeState = record { fails = 0; window = now; banned_until = none } in
    insert ip (count (elim (lookup ip t) [ none ↦ fresh | some s ↦ s ]) now) t

unfoldable pub clear : ProbeTracker → IpAddr → ProbeTracker
clear t ip = remove ip t
