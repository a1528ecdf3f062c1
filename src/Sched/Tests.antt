-- ===== src/Sched/Tests.antt =====
-- kern/sched.c from the boot of a core with three threads.
use cute.Base.{
  sym, ap, subst, ◌∙◌, ℕ, zero, suc, ◌+◌, ◌≤◌, ◌≡◌, refl, ◌==◌, if◌then◌else◌, [], ◌∷◌, ltb→lt,
  leb→le, Outcome, ok, panic, Returns, update,
}
use cute.Sched.{
  Proc, PercpuSched, Runqueue, proc_init, rq_init, max_prio, schedulify_this_code_path,
  sched_enqueue, ticks_handler, queued, rq_count, rq_get_highest_prio, dispatch_runnable_proc,
  swap_runqueues, rq_sum, add_proc, rq_add_proc, move_just_queued, pop_active, dispatch_active,
  dispatch_from_runqueues, dispatch_turn, preempt, account_tick, switch_to, end_slice, stay,
  sched_tick, rq_empty, highest_below, sched_percpu_area_init,
}
use cute.Sched.Dispatch.{Dispatched, dispatch_runnable_proc-Dispatched}
use cute.Sched.Invariant.{KeepsThreads, ticks_handler-IsValid, sched_enqueue-IsValid}
use cute.Sched.Invariant.Switch.{IsValid, total}
use cute.Sched.Starvation.Step.{
  Waits, Progress, dispatch_runnable_proc-Progress, turns, active_size,
}
use cute.Sched.Starvation.{
  Run, here, tick, enqueue, IsServed, Nearer, ticks_left, slice_left, ticks_handler-Nearer,
  Run-IsServed,
}
use cute.Sched.Boot.{boot-IsValid, boot_safe}

abbrev descriptors : ℕ → Proc
descriptors p = proc_init

abbrev booted : PercpuSched
booted = schedulify_this_code_path 0 descriptors

abbrev with_one : PercpuSched
with_one = sched_enqueue booted 1

abbrev with_two : PercpuSched
with_two = sched_enqueue with_one 2

new_one : total booted 1 ≡ 0
unfolding queued schedulify_this_code_path sched_percpu_area_init rq_sum
new_one = refl

new_two : total with_one 2 ≡ 0
unfolding queued schedulify_this_code_path sched_percpu_area_init sched_enqueue rq_sum
new_two = refl

with_one-IsValid : IsValid with_one
with_one-IsValid = (sched_enqueue-IsValid booted 1 (boot-IsValid 0 descriptors) new_one).0

with_two-IsValid : IsValid with_two
with_two-IsValid = (sched_enqueue-IsValid with_one 2 with_one-IsValid new_two).0

abbrev after : Outcome PercpuSched → PercpuSched
after (ok s) = s
after panic = booted

abbrev second : PercpuSched
second = after (ticks_handler with_two)

abbrev third : PercpuSched
third = after (ticks_handler second)

abbrev fourth : PercpuSched
fourth = after (ticks_handler third)

-- A core on which thread 2 runs, and thread 0 waits in the active runqueue.
abbrev mid_run : PercpuSched
mid_run = after (ticks_handler fourth)

after_ok : (s : PercpuSched) → IsValid s → ticks_handler s ≡ ok (after (ticks_handler s))
after_ok s v = let (t, e, k) = ticks_handler-IsValid s v in e ∙ ap ok (ap after (sym e))

after-IsValid : (s : PercpuSched) → IsValid s → IsValid (after (ticks_handler s))
after-IsValid s v =
    let (t, e, k) = ticks_handler-IsValid s v in subst (λ o. IsValid (after o)) (sym e) k.0

mid_run-IsValid : IsValid mid_run
mid_run-IsValid =
    after-IsValid fourth
      (after-IsValid third (after-IsValid second (after-IsValid with_two with_two-IsValid)))

mid_run_current : mid_run.current ≡ 2
unfolding ticks_handler sched_tick account_tick end_slice stay switch_to preempt
    dispatch_runnable_proc dispatch_turn dispatch_from_runqueues dispatch_active pop_active
    swap_runqueues move_just_queued rq_add_proc add_proc rq_empty rq_get_highest_prio highest_below
    queued schedulify_this_code_path sched_percpu_area_init sched_enqueue rq_sum
mid_run_current = refl

waiting : Waits 0 mid_run
unfolding ticks_handler sched_tick account_tick end_slice stay switch_to preempt
    dispatch_runnable_proc dispatch_turn dispatch_from_runqueues dispatch_active pop_active
    swap_runqueues move_just_queued rq_add_proc add_proc rq_empty rq_get_highest_prio highest_below
    queued schedulify_this_code_path sched_percpu_area_init sched_enqueue rq_sum
waiting = ltb→lt 0 (rq_count 0 mid_run.rq_active (suc max_prio)) refl

few_ticks : ticks_left mid_run ≤ 8
unfolding ticks_left turns active_size slice_left ticks_handler sched_tick account_tick end_slice
    stay switch_to preempt dispatch_runnable_proc dispatch_turn dispatch_from_runqueues
    dispatch_active pop_active swap_runqueues move_just_queued rq_add_proc add_proc rq_empty
    rq_get_highest_prio highest_below queued schedulify_this_code_path sched_percpu_area_init
    sched_enqueue rq_sum
few_ticks = leb→le (ticks_left mid_run) 8 refl

-- A run of so many timer interrupts.
some_run : (n : ℕ) (s : PercpuSched) → IsValid s → (u : PercpuSched) × Run s n u
some_run zero s v = (s, here)
some_run (suc n) s v =
    let (t, e, k) = ticks_handler-IsValid s v in let (u, r) = some_run n t k.0 in (u, tick e r)

abbrev some_threads : Runqueue
some_threads = update (update rq_init 3 (7 ∷ [])) 12 (8 ∷ 9 ∷ [])

dispatch_runnable_proc-Dispatched_example :
    Returns (Dispatched with_two) (dispatch_runnable_proc with_two)
dispatch_runnable_proc-Dispatched_example =
    dispatch_runnable_proc-Dispatched with_two with_two-IsValid.lists

ticks_handler-IsValid_example : Returns (KeepsThreads with_two) (ticks_handler with_two)
ticks_handler-IsValid_example = ticks_handler-IsValid with_two with_two-IsValid

sched_enqueue-IsValid_example :
    IsValid (sched_enqueue with_one 2)
    × ((p : ℕ) → total (sched_enqueue with_one 2) p ≡ total with_one p + (if 2 == p then 1 else 0))
sched_enqueue-IsValid_example = sched_enqueue-IsValid with_one 2 with_one-IsValid new_two

boot_safe_example :
    Returns (KeepsThreads with_one) (ticks_handler with_one) × ((p : ℕ) → total with_one p ≤ 1)
boot_safe_example = boot_safe 0 descriptors (enqueue 1 new_one here)

dispatch_runnable_proc-Progress_example :
    Returns (Progress mid_run 0) (dispatch_runnable_proc mid_run)
dispatch_runnable_proc-Progress_example = dispatch_runnable_proc-Progress mid_run 0 waiting

ticks_handler-Nearer_example : Returns (Nearer (ticks_left mid_run) 0) (ticks_handler mid_run)
ticks_handler-Nearer_example = ticks_handler-Nearer mid_run 0 mid_run-IsValid waiting

Run-IsServed_example : IsServed 0 (some_run 8 mid_run mid_run-IsValid).1
Run-IsServed_example =
    Run-IsServed 0 (some_run 8 mid_run mid_run-IsValid).1 mid_run-IsValid waiting few_ticks
