-- ===== src/Collector/Group.antt =====
-- internal/controller/garbagecollector_controller.go: the `errgroup.Group` in which the goroutines of
-- `Reconcile` run. They take turns at making calls, in any order; a call and its answer are one turn.
use oadp_non_admin.Base.{ℕ, zero, suc, Option, none, some, List, [], ◌∷◌}
use oadp_non_admin.Kube.Status.{Error}
use oadp_non_admin.Kube.Api.{Prog, ret, fail, panic, call, event, History, Server}
use oadp_non_admin.Kube.Vendor.{Vendor}
use oadp_non_admin.Collector.Sweeps.{CollectorReconciler, goroutines}

-- The calls that the group has made, the error of the first goroutine that returned one, and what
-- each goroutine still has to do; one that is through is `ret tt`.
pub record Group : Type 0 where
  pub history : History
  pub first_error : Option Error
  pub running : List (Prog (Unit {0}))

-- Only the first error is kept.
abbrev pub first_of : Option Error → Error → Option Error
first_of none e = some e
first_of (some d) e = some d

-- What one goroutine does in its turn, with the history, the error and the rest of it after that.
unfoldable pub advance :
    Server → History → Option Error → Prog (Unit {0}) → History × Option Error × Prog (Unit {0})
advance s h d (ret a) = (h, d, ret a)
advance s h d (fail e) = (h, first_of d e, ret tt)
advance s h d panic = (h, d, panic)
advance s h d (call c k) = (event c (s h c) ∷ h, d, k (s h c))

-- The goroutine of that number, from the front of a list of them, takes its turn.
unfoldable pub turn_among : Server → ℕ → History → Option Error → List (Prog (Unit {0})) → Group
unfolding advance
turn_among s i h d [] = record { history = h; first_error = d; running = [] }
turn_among s zero h d (m ∷ ms) =
    let (g, e, n) = advance s h d m in record { history = g; first_error = e; running = n ∷ ms }
turn_among s (suc i) h d (m ∷ ms) =
    let after = turn_among s i h d ms in
    record { history = after.history; first_error = after.first_error; running = m ∷ after.running }

unfoldable pub turn : Server → ℕ → Group → Group
unfolding turn_among
turn s i g = turn_among s i g.history g.first_error g.running

-- The turns of a schedule.
unfoldable pub take_turns : Server → List ℕ → Group → Group
unfolding turn
take_turns s [] g = g
take_turns s (i ∷ is) g = take_turns s is (turn s i g)

module _ ⦃v : Vendor⦄ (r : CollectorReconciler) where
  -- `Reconcile` has started the goroutines.
  abbrev pub started : Group
  unfolding goroutines
  started = record { history = []; first_error = none; running = goroutines r }

  -- `Reconcile` under a schedule: what it returns once every goroutine is through, with the calls.
  unfoldable pub reconcile_collector : Server → List ℕ → Group
  unfolding take_turns
  reconcile_collector s schedule = take_turns s schedule started
