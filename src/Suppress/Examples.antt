-- ===== src/Suppress/Examples.antt =====
-- Tables of two hashes.
use zsync.Base.{Text, codes, text_eq, nat_eq, ◌≡◌, refl, [], ◌∷◌, arith}
use zsync.Suppress.{has}
use zsync.Suppress.Refines.{Log, Monotone, recorded, run, suppressed, has-run}

abbrev aa : Text
aa = codes "aa"

abbrev bb : Text
bb = codes "bb"

abbrev log : Log
log = (aa, 7000) ∷ (bb, 300) ∷ (aa, 300) ∷ []

log-Monotone : Monotone 9000 log
log-Monotone = (omega arith, (omega arith, (omega arith, tt)))

has-run_example : has (run 5000 3 log) bb 9000 ≡ suppressed 5000 8 (recorded log) bb 9000
has-run_example = has-run 5000 3 log bb 9000 refl log-Monotone
