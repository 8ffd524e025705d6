-- ===== src/Daemon/Redial/Examples.antt =====
-- A peer that cannot be reached.
use zsync.Base.{codes, text_eq, nat_eq, ok, ◌≤◌, Bool, true, false, none, List, [], ◌∷◌, arith}
use zsync.Daemon.Table.{new_status}
use zsync.Daemon.Redial.{Dialler, Attempt, maintain}
use zsync.Daemon.Redial.Delays.{failing, delay_within_bounds}

abbrev dialler : Dialler
dialler = record {
  status = new_status (codes "desk:43721") (codes "connecting");
  delay = 1000;
  over = false;
}

abbrev rounds : List (Bool × Attempt)
rounds =
    failing (codes "refused")
    ∷ (true, record { stop_before = false; result = ok tt; stop_after = false; woken = none })
    ∷ (false, record { stop_before = false; result = ok tt; stop_after = true; woken = none })
    ∷ []

delay_within_bounds_example :
    (1000 ≤ (maintain dialler rounds).delay) × ((maintain dialler rounds).delay ≤ 30000)
delay_within_bounds_example = delay_within_bounds dialler rounds (omega arith) (omega arith)
