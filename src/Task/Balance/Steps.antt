-- ===== src/Task/Balance/Steps.antt =====
-- The invariant over each event of `Run`.
use chenlongos.Prelude.{
  ℕ, ◌≡◌, ◌≢◌, refl, sym, Bool, true, false, not, ◌&&◌, ◌==◌, if◌then◌else◌, Option, none, some,
  arith, if-true, ltb, subst, count-perm, ==_iff,
}
use chenlongos.Prelude.Int.{ℤ}
use chenlongos.Sched.{BaseScheduler, SchedulerLaws}
use chenlongos.Task.State.{
  is_ready, System, curr, can_preempt, new_task, put_task, WaitQueueId, exit_of, TaskState, running,
  ready, blocked, exited,
}
use chenlongos.Task.Alarms.{set_alarm_wakeup}
use chenlongos.Task.RunQueue.{
  Ended, terminated, switched, add_task, yield_current, preempt_resched, enable_preempt,
  current_check_preempt_pending, block_current, exit_current, sleep_until, gc_pass,
}
use chenlongos.Task.WaitQueue.{
  is_exited, Round, blocks, wait_begin, wait_until_round, join_round, cancel_events,
  wait_timeout_begin, wait_timeout_end, wait_timeout_until_round,
}
use chenlongos.Task.Balance.{Inv, Inv-Same, Same-put_task}
use chenlongos.Task.Balance.Calls.{
  Kept, KeptEnd, yield_current-Kept, preempt_resched-Kept, block_current-Kept, sleep_until-Kept,
  exit_current-Kept, alarm-Same, exited-Same,
}
use chenlongos.Task.Balance.Interrupts.{
  disable_preempt-Same, cancel_events-Same, scheduler_timer_tick-Same, set_current_priority-Same,
  check_events-Inv, notify_one-Inv, notify_all-Inv, notify_task-Inv,
}
use chenlongos.Task.Balance.Run.{
  Event, spawn, timer_tick, alarms, yield_now, preempt, locks, unlocks, set_priority, sleep, exit,
  wait, wait_returns, wait_until, arms, wait_timeout, wait_timeout_returns, wait_timeout_until,
  join, notify_first, notify_every, notify_given, collect, goes_on, round_ends, step, allowed,
}

-- The operation ran, its assertions held, and it left the system in order or has stopped it.
abbrev pub Orderly : {S : BaseScheduler} → Option (Ended S) → Type 0
Orderly none = ⊥
Orderly (some (terminated s)) = Unit {0}
Orderly (some (switched s)) = Inv s

if-≢none : {A : Type 0} (b : Bool) (x : A) → b ≡ true → (if b then some x else none) ≢ none
if-≢none true x e = λ h. cc
if-≢none false x e = λ h. cc

module _ {S : BaseScheduler} where
  goes_on-Orderly : (r : Option (System S)) → Kept r → r ≢ none → Orderly (goes_on r)
  goes_on-Orderly none k ne = ne refl
  goes_on-Orderly (some s) k ne = k

  blocks-Orderly :
      (A : Type 0) (r : Option (System S))
      → Kept r
      → r ≢ none
      → Orderly (round_ends (blocks {A = A} r))
  blocks-Orderly A none k ne = ne refl
  blocks-Orderly A (some s) k ne = k

  end-Orderly : (r : Option (Ended S)) → KeptEnd r → r ≢ none → Orderly r
  end-Orderly none k ne = ne refl
  end-Orderly (some (terminated s)) k ne = tt
  end-Orderly (some (switched s)) k ne = k

  block_current-runs :
      (s : System S) (q : WaitQueueId)
      → Inv s
      → (not (curr s).is_idle && can_preempt (curr s) 1) ≡ true
      → block_current s q ≢ none
  unfolding block_current
  block_current-runs s q v a = if-≢none _ _ (ground (arith, v.running_now, a))

  yield_current-runs : (s : System S) → Inv s → yield_current s ≢ none
  unfolding yield_current
  yield_current-runs s v = if-≢none _ _ v.running_now

  preempt_resched-runs : (s : System S) → Inv s → preempt_resched s ≢ none
  unfolding preempt_resched
  preempt_resched-runs s v = if-≢none _ _ v.running_now

  sleep_until-runs :
      (s : System S) (deadline now : ℕ)
      → Inv s
      → not (curr s).is_idle ≡ true
      → sleep_until s deadline now ≢ none
  unfolding sleep_until
  sleep_until-runs s deadline now v a = if-≢none _ _ (ground (arith, v.running_now, a))

  exit_current-runs :
      (s : System S) (code : ℤ) → Inv s → not (curr s).is_idle ≡ true → exit_current s code ≢ none
  unfolding exit_current
  exit_current-runs s code v a = if-≢none _ _ (ground (arith, v.running_now, a))

  either-Orderly :
      (b : Bool) (s : System S) (r : Option (System S))
      → Inv s
      → Orderly (goes_on r)
      → Orderly (goes_on (if b then r else some s))
  either-Orderly true s r v o = o
  either-Orderly false s r v o = v

module _ {S : BaseScheduler} (L : SchedulerLaws S) where
  state_of_exited : (st : TaskState) → is_exited st ≡ true → st ≡ exited
  state_of_exited running e = cc
  state_of_exited ready e = cc
  state_of_exited blocked e = cc
  state_of_exited exited e = refl

  spawned-Inv :
      (s : System S) (t : ℕ)
      → Inv s
      → is_exited (s.task t).state ≡ true
      → Inv (record (put_task s t (new_task false)) { scheduler = S.add_task s.scheduler t })
  unfolding new_task
  spawned-Inv s t v free =
      let st = state_of_exited (s.task t).state free in
      record {
        balanced = λ u. ground (
          arith,
          v.balanced u,
          v.balanced t,
          st,
          count-perm u (L.waiting-add s.scheduler t),
          ==_iff u t,
          ==_iff t u,
        );
        running_now = ground (arith, v.running_now, st, ==_iff s.current t);
        alone = λ u p. v.alone u (ground (arith, ==_iff u t));
        idle = record {
          idle_is = ground (arith, v.idle.idle_is, v.idle.idle_awake, st, ==_iff s.idle_task t);
          idle_only = λ u p. v.idle.idle_only u (ground (arith, ==_iff u t));
          idle_awake = ground (arith, v.idle.idle_awake, st, ==_iff s.idle_task t);
        };
      }

  spawn-Orderly :
      (s : System S) (t : ℕ)
      → Inv s
      → is_exited (s.task t).state ≡ true
      → Orderly (goes_on (add_task (put_task s t (new_task false)) t))
  unfolding add_task new_task
  spawn-Orderly s t v free =
      let yes : is_ready ((put_task s t (new_task false)).task t).state ≡ true =
        ground (arith, ==_iff t t) in
      subst (λ (r : Option (System S)). Orderly (goes_on r)) (sym (if-true _ none yes))
        (spawned-Inv s t v free)

  round-Orderly :
      {A : Type 0} (s s' : System S) (q : WaitQueueId) (b : Bool) (a : A)
      → Inv s
      → Inv s'
      → (not (curr s).is_idle && can_preempt (curr s) 1) ≡ true
      → Orderly (round_ends (if b then some (Round.done s' a) else blocks (block_current s q)))
  round-Orderly {A} s s' q true a v v' e = v'
  round-Orderly {A} s s' q false a v v' e =
      blocks-Orderly A _ (block_current-Kept L s q v) (block_current-runs s q v e)

  wait_timeout-Orderly :
      (s : System S) (q : WaitQueueId) (deadline : ℕ)
      → Inv s
      → (not (curr s).is_idle && can_preempt (curr s) 1) ≡ true
      → Orderly (goes_on (block_current (set_alarm_wakeup s deadline s.current) q))
  unfolding set_alarm_wakeup
  wait_timeout-Orderly s q deadline v a =
      let v' : Inv (set_alarm_wakeup s deadline s.current) =
        Inv-Same (alarm-Same L s deadline s.current) v in
      goes_on-Orderly _ (block_current-Kept L _ q v')
        (block_current-runs _ q v' (ground (arith, a, ==_iff s.current s.current)))

  preempt-Orderly : (s : System S) → Inv s → Orderly (goes_on (preempt_resched s))
  preempt-Orderly s v = goes_on-Orderly _ (preempt_resched-Kept L s v) (preempt_resched-runs s v)

  check-Orderly : (s : System S) → Inv s → Orderly (goes_on (current_check_preempt_pending s))
  unfolding current_check_preempt_pending
  check-Orderly s v =
      either-Orderly ((curr s).need_resched && can_preempt (curr s) 0) s _ v
        (preempt-Orderly _ (Inv-Same (disable_preempt-Same s) v))

  enable_preempt-Orderly :
      (s : System S) (b : Bool) → Inv s → Orderly (goes_on (enable_preempt s b))
  unfolding enable_preempt
  enable_preempt-Orderly s b v =
      let v' = Inv-Same (Same-put_task s s.current _ refl refl) v in
      either-Orderly ((curr s).preempt_disable_count == 1 && b) _ _ v' (check-Orderly _ v')

  pub step-Orderly : (s : System S) (e : Event) → Inv s → allowed s e ≡ true → Orderly (step s e)
  unfolding allowed step wait_begin wait_until_round join_round wait_timeout_begin wait_timeout_end
      wait_timeout_until_round gc_pass
  step-Orderly s (spawn t) v a = spawn-Orderly s t v a
  step-Orderly s timer_tick v a = Inv-Same (scheduler_timer_tick-Same L s) v
  step-Orderly s (alarms clock) v a = check_events-Inv L s clock v
  step-Orderly s yield_now v a =
      goes_on-Orderly _ (yield_current-Kept L s v) (yield_current-runs s v)
  step-Orderly s preempt v a = preempt-Orderly s v
  step-Orderly s locks v a = Inv-Same (disable_preempt-Same s) v
  step-Orderly s (unlocks resched) v a = enable_preempt-Orderly s resched v
  step-Orderly s (set_priority p) v a = Inv-Same (set_current_priority-Same L s p) v
  step-Orderly s (sleep deadline now) v a =
      goes_on-Orderly _ (sleep_until-Kept L s deadline now v) (sleep_until-runs s deadline now v a)
  step-Orderly s (exit code) v a =
      end-Orderly _ (exit_current-Kept L s code v) (exit_current-runs s code v a)
  step-Orderly s (wait q) v a =
      goes_on-Orderly _ (block_current-Kept L s q v) (block_current-runs s q v a)
  step-Orderly s (wait_returns q) v a = Inv-Same (cancel_events-Same s q) v
  step-Orderly s (wait_until q condition) v a =
      round-Orderly s _ q condition tt v (Inv-Same (cancel_events-Same s q) v) a
  step-Orderly s (arms deadline) v a = Inv-Same (alarm-Same L s deadline s.current) v
  step-Orderly s (wait_timeout q deadline) v a = wait_timeout-Orderly s q deadline v a
  step-Orderly s (wait_timeout_returns q) v a = Inv-Same (cancel_events-Same s q) v
  step-Orderly s (wait_timeout_until q deadline now condition) v a =
      elim (ltb now deadline)
        as (λ b. Orderly (
          round_ends (
            if b
            then (if condition
                then some (Round.done (cancel_events s q) false)
                else blocks (block_current s q))
            else some (Round.done (cancel_events s q) true)))) [
              | true ↦ round-Orderly s _ q condition false v (Inv-Same (cancel_events-Same s q) v) a
              | false ↦ Inv-Same (cancel_events-Same s q) v
            ]
  step-Orderly s (join t) v a =
      round-Orderly s _ (exit_of t) _ _ v (Inv-Same (cancel_events-Same s (exit_of t)) v) a
  step-Orderly s (notify_first q b) v a = notify_one-Inv L s q b v
  step-Orderly s (notify_every q b) v a = notify_all-Inv L s q b v
  step-Orderly s (notify_given q b t) v a = notify_task-Inv L s q b t v
  step-Orderly s (collect last_holder) v a = Inv-Same (exited-Same L s _) v
