-- ===== src/Sched/Starvation.antt =====
-- The starvation bound that the comments of kern/sched.c state: how many ticks pass at most until a
-- thread of the active runqueue runs.
pub mod Step
use cute.Base.{
  update, count, update_ne, update_same, ℕ, zero, suc, ◌+◌, ◌-◌, ◌*◌, ◌%◌, ◌^◌, ◌≤◌, ◌<◌, ◌≡◌, ◌≢◌,
  refl, sym, ap, subst, ◌∙◌, ◌⊎◌, inl, inr, Bool, true, false, not, max, Option, none, some, List,
  [], ◌∷◌, ◌++◌, arith, Bool-cases, ◌==◌, ltb, ltb→lt, leb, if◌then◌else◌, length, Outcome, ok,
  panic, ◌>>=◌, assert, Returns, Returns-both, Returns-at,
}
use cute.Sched.{
  Proc, PercpuSched, enqueued, enq_normal, rq_get_highest_prio, sched_enqueue,
  dispatch_runnable_proc, account_tick, count_slice_end, switch_to, end_slice, stay, sched_tick,
  ticks_handler, rq_sum, rq_count, max_prio, default_prio, valid_prio, rr_interval,
}
use cute.Sched.Count.{IsHighest, rq_get_highest_prio-IsHighest, rq_sum-empty}
use cute.Sched.Dispatch.{Dispatched, dispatch_runnable_proc-Dispatched}
use cute.Sched.Invariant.{
  IsSteady, ended-IsSteady, accounted-IsSteady, KeepsThreads, slice_over, sched_tick_cases,
  ticks_handler-IsValid, sched_enqueue-IsValid,
}
use cute.Sched.Invariant.Switch.{IsValid, total, taken, requeue, preempted, switch_to_run}
use Step.{active_size, turns, Waits, Progress, dispatch_runnable_proc-Progress}

-- What is left of the running thread's slice.
unfoldable pub slice_left : PercpuSched → ℕ
slice_left s = rr_interval - (s.procs s.current).runtime

-- The timer ticks until the active runqueue is empty, at most.
unfoldable pub ticks_left : PercpuSched → ℕ
ticks_left s = turns s * rr_interval + slice_left s

-- The thread runs, or it waits with less than `n` ticks left.
abbrev pub Nearer : ℕ → ℕ → PercpuSched → Type 0
Nearer n x t = (t.current ≡ x) ⊎ (Waits x t × (ticks_left t < n))

abbrev NearerTick : ℕ → ℕ → PercpuSched × ℕ → Type 0
NearerTick n x (t, next) = Nearer n x (record t { current = next })

dispatched : PercpuSched → ℕ → ℕ → PercpuSched
dispatched t proc prio = taken (requeue t t.current (max 0 (t.current_prio - 1))) proc prio

-- The dispatched thread has a slice at most, and the threads of the active runqueue stay.
dispatched-Nearer :
    (t : PercpuSched) (n x proc prio : ℕ)
    → turns t * rr_interval + rr_interval < n
    → (proc ≡ x) ⊎ Waits x t
    → Nearer n x (dispatched t proc prio)
unfolding dispatched taken requeue turns active_size ticks_left slice_left
dispatched-Nearer t n x proc prio less (inl hit) = inl hit
dispatched-Nearer t n x proc prio less (inr w) = inr (w, omega arith)

switch_to-Nearer :
    (s : PercpuSched) (n x : ℕ)
    → IsSteady s
    → turns s * rr_interval < n
    → (r : PercpuSched × Option (ℕ × ℕ)) → Progress s x r
    → Dispatched s r
    → Returns (NearerTick n x) (switch_to r.0 r.1)
switch_to-Nearer s n x v room (t, none) p d = absurd p
switch_to-Nearer s n x v room (t, some (proc, prio)) (fewer, near) d = (
  (preempted (requeue t t.current (max 0 (t.current_prio - 1))) proc prio, proc),
  switch_to_run s t proc prio d v.unique v.prio_low,
  unfold dispatched taken in dispatched-Nearer t n x proc prio (omega arith) near,
)

end_slice-Nearer :
    (s : PercpuSched) (n x : ℕ)
    → IsSteady s
    → Waits x s
    → turns s * rr_interval < n
    → Returns (NearerTick n x) (end_slice s)
unfolding end_slice turns active_size
end_slice-Nearer s n x v w room =
    let v' = ended-IsSteady s v in
    let (r, run, (p, d)) =
      Returns-both (dispatch_runnable_proc-Progress (count_slice_end s) x w)
        (dispatch_runnable_proc-Dispatched (count_slice_end s) v'.lists) in
    rw run (switch_to-Nearer (count_slice_end s) n x v' room r p d)

-- A thread that waits keeps the running one within its slice.
slice_some_left : (s : PercpuSched) (x : ℕ) → IsValid s → Waits x s → 0 < slice_left s
unfolding slice_left
slice_some_left s x v w = elim (cases (s.procs s.current).runtime) [
  | inl over ↦ absurd (
      omega (
        arith,
        w,
        rq_sum-empty (count x) refl s.rq_active (suc max_prio) (λ i l. v.in_slice over i),
      ))
  | inr short ↦ omega arith
]
  where
    cases : (n : ℕ) → (rr_interval ≤ n) ⊎ (n < rr_interval)
    cases n = omega arith

accounted_turns : (s : PercpuSched) → turns (account_tick s) ≡ turns s
unfolding account_tick turns active_size
accounted_turns s = refl

accounted_runtime :
    (s : PercpuSched)
    → ((account_tick s).procs (account_tick s).current).runtime
      ≡ ((s.procs s.current).runtime + 1) % 2 ^ 64
unfolding account_tick
accounted_runtime s = ap (λ p. p.runtime) (update_same s.procs s.current _)

ended_lem :
    (s : PercpuSched) → 0 < slice_left s → turns (account_tick s) * rr_interval < ticks_left s
unfolding ticks_left
ended_lem s left = omega (arith, accounted_turns s)

going_lem : (s : PercpuSched) → 0 < slice_left s → ticks_left (account_tick s) < ticks_left s
unfolding ticks_left slice_left
going_lem s left = omega (arith, accounted_turns s, accounted_runtime s)

sched_tick-Nearer :
    (s : PercpuSched) (x : ℕ)
    → IsValid s
    → Waits x s
    → Returns (NearerTick (ticks_left s) x) (sched_tick s)
sched_tick-Nearer s x v w = elim (sched_tick_cases s v) [
  | inl (over, e) ↦ rw e (
      end_slice-Nearer (account_tick s) (ticks_left s) x (accounted-IsSteady s v)
        (unfold account_tick in w) ended)
  | inr (short, e) ↦ rw e ((account_tick s, (account_tick s).current), refl, going short)
]
  where
    left : 0 < slice_left s
    left = slice_some_left s x v w

    ended : turns (account_tick s) * rr_interval < ticks_left s
    ended = ended_lem s left

    going : slice_over s ≡ false → Nearer (ticks_left s) x (account_tick s)
    going short = inr (unfold account_tick in w, going_lem s left)

-- From a valid state, while a thread waits in the active runqueue, each timer interrupt either puts
-- it on the core or leaves it there with fewer ticks to wait.
pub ticks_handler-Nearer :
    (s : PercpuSched) (x : ℕ)
    → IsValid s
    → Waits x s
    → Returns (Nearer (ticks_left s) x) (ticks_handler s)
unfolding ticks_handler
ticks_handler-Nearer s x v w =
    let ((t, next), run, near) = sched_tick-Nearer s x v w in
    (record t { current = next }, rw run, near)

-- A run of the core: timer interrupts, and new threads that are enqueued between them.
pub data Run : PercpuSched → ℕ → PercpuSched → Type 0 where
  here : {s : PercpuSched} → Run s 0 s
  tick : {s t u : PercpuSched} {n : ℕ} → ticks_handler s ≡ ok t → Run t n u → Run s (suc n) u
  enqueue :
      {s u : PercpuSched} {n : ℕ} (p : ℕ) → total s p ≡ 0 → Run (sched_enqueue s p) n u → Run s n u

-- A state of the run in which the thread is on the core.
abbrev pub IsServed : {s u : PercpuSched} {n : ℕ} → ℕ → Run s n u → Type 0
IsServed {s} x here = s.current ≡ x
IsServed {s} x (tick run rest) = (s.current ≡ x) ⊎ IsServed x rest
IsServed {s} x (enqueue p new rest) = (s.current ≡ x) ⊎ IsServed x rest

enqueued_left :
    (s : PercpuSched) (p : ℕ) → s.current ≢ p → ticks_left (sched_enqueue s p) ≡ ticks_left s
unfolding sched_enqueue ticks_left slice_left turns active_size
enqueued_left s p ne =
    ap (λ (q : Proc). turns s * rr_interval + (rr_interval - q.runtime))
      (update_ne s.procs p s.current (enqueued enq_normal s.sys_ticks (s.procs p)) ne)

IsServed-now : {s u : PercpuSched} {n : ℕ} (x : ℕ) (r : Run s n u) → s.current ≡ x → IsServed x r
IsServed-now x here e = e
IsServed-now x (tick run rest) e = inl e
IsServed-now x (enqueue p new rest) e = inl e

not_current : (s : PercpuSched) (p : ℕ) → total s p ≡ 0 → s.current ≢ p
not_current s p new e = ground (arith, new, e)

-- In every run of the core from a valid state, with new threads enqueued at any time, a thread that
-- waits in the active runqueue is on the core after `ticks_left` timer ticks at the latest.
pub Run-IsServed :
    {s u : PercpuSched} {n : ℕ} (x : ℕ) (r : Run s n u)
    → IsValid s
    → Waits x s
    → ticks_left s ≤ n
    → IsServed x r
unfolding ticks_left
Run-IsServed {s} x here v w enough = absurd (omega (arith, slice_some_left s x v w))
Run-IsServed {s} x (tick {t} run rest) v w enough =
    let (valid, _) = Returns-at (ticks_handler-IsValid s v) run in
    elim (Returns-at (ticks_handler-Nearer s x v w) run) [
      | inl e ↦ inr (IsServed-now x rest e)
      | inr (w', less) ↦ inr (Run-IsServed x rest valid w' (omega arith))
    ]
Run-IsServed {s} x (enqueue p new rest) v w enough =
    let (valid, _) = sched_enqueue-IsValid s p v new in
    inr (
      Run-IsServed x rest valid (unfold sched_enqueue in w)
        (omega (arith, enqueued_left s p (not_current s p new))))

-- `ticks_left` is at most four ticks for each thread of the active runqueue, and four more.
pub ticks_left-le : (s : PercpuSched) → ticks_left s ≤ active_size s * 4 + 4
unfolding ticks_left turns slice_left
ticks_left-le s = ground arith
