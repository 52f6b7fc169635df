-- ===== src/Task/Balance/Reach.antt =====
-- The invariant over `init` and over sequences of events.
use chenlongos.Prelude.{ℕ, ◌≢◌, arith, ==_iff, count, count-perm, ap}
use chenlongos.Sched.{BaseScheduler, SchedulerLaws}
use chenlongos.Task.State.{new_task, new_init}
use chenlongos.Task.RunQueue.{init}
use chenlongos.Task.Balance.{Inv}

module _ {S : BaseScheduler} (L : SchedulerLaws S) where
  -- `init` makes a system that satisfies the invariant, if its three tasks have different addresses:
  -- the init task runs, the collector is the only task in the ready queue, and the idle task is ready.
  pub init-Inv :
      (idle gc main : ℕ) → idle ≢ gc → idle ≢ main → gc ≢ main → Inv (init S idle gc main)
  unfolding init new_task new_init
  init-Inv idle gc main a b c = record {
    balanced = λ t. ground (
      arith,
      count-perm t (L.waiting-add S.new gc),
      ap (count t) L.waiting-new,
      ==_iff t main,
      ==_iff t idle,
      ==_iff t gc,
      ==_iff gc t,
    );
    running_now = ground (arith, ==_iff main main);
    alone = λ t p. ground (arith, ==_iff t main, ==_iff t idle, ==_iff t gc);
    idle = record {
      idle_is = ground (arith, ==_iff idle main, ==_iff idle idle);
      idle_only = λ t p. ground (arith, ==_iff t main, ==_iff t idle, ==_iff t gc);
      idle_awake = ground (arith, ==_iff idle main, ==_iff idle idle);
    };
  }
