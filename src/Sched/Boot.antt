-- ===== src/Sched/Boot.antt =====
-- kern/sched.c from the boot of a core on.
use cute.Base.{
  count, update_same, ℕ, suc, ◌≤◌, ◌≡◌, refl, sym, subst, ap, ◌==◌, if◌then◌else◌, arith, Returns,
  Returns-at,
}
use cute.Sched.{
  Proc, td_oncpu, proc_init, PercpuSched, schedulify_this_code_path, ticks_handler, queued, rq_init,
  td_oncpu, max_prio,
}
use cute.Sched.Count.{rq_sum-empty}
use cute.Sched.Invariant.{KeepsThreads, ticks_handler-IsValid, sched_enqueue-IsValid}
use cute.Sched.Invariant.Switch.{IsValid, total}
use cute.Sched.Starvation.{Run, here, tick, enqueue}

module _ (current : ℕ) (procs : ℕ → Proc) where
  boot_queued : (p : ℕ) → queued (schedulify_this_code_path current procs) p ≡ 0
  unfolding queued schedulify_this_code_path
  boot_queued p = omega (arith, rq_sum-empty (count p) refl rq_init (suc max_prio) (λ i h. refl))

  boot_total :
      (p : ℕ) → total (schedulify_this_code_path current procs) p ≡ (if current == p then 1 else 0)
  unfolding schedulify_this_code_path
  boot_total p = omega (arith, boot_queued p)

  boot_unique : (p : ℕ) → total (schedulify_this_code_path current procs) p ≤ 1
  boot_unique p = subst (λ n. n ≤ 1) (sym (boot_total p)) (ground arith)

  pub boot-IsValid : IsValid (schedulify_this_code_path current procs)
  unfolding schedulify_this_code_path
  boot-IsValid = record {
    oncpu =
        ap (λ (p : Proc). p.state)
          (update_same procs current (record proc_init { state = td_oncpu }));
    lists = record {
      ready = λ p h. absurd (omega (arith, boot_queued p));
      active_low = λ i h. refl;
      expired_low = λ i h. refl;
    };
    unique = λ p. boot_unique p;
    prio_low = omega arith;
    active_below = λ i h. refl;
    in_slice = λ h i. refl;
  }

pub Run-IsValid : {s u : PercpuSched} {n : ℕ} → Run s n u → IsValid s → IsValid u
Run-IsValid here v = v
Run-IsValid {s} (tick run rest) v = Run-IsValid rest (Returns-at (ticks_handler-IsValid s v) run).0
Run-IsValid {s} (enqueue p new rest) v = Run-IsValid rest (sched_enqueue-IsValid s p v new).0

-- After any run of timer interrupts and enqueued new threads from the boot of the core on, the next
-- timer interrupt does not panic, and every thread stands as often as before on the core or in a
-- list, which is at most once.
pub boot_safe :
    (current : ℕ) (procs : ℕ → Proc) {n : ℕ} {s : PercpuSched}
    → Run (schedulify_this_code_path current procs) n s
    → Returns (KeepsThreads s) (ticks_handler s) × ((p : ℕ) → total s p ≤ 1)
boot_safe current procs {s} r =
    let v = Run-IsValid r (boot-IsValid current procs) in (ticks_handler-IsValid s v, v.unique)
