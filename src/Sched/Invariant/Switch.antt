-- ===== src/Sched/Invariant/Switch.antt =====
-- The invariant of kern/sched.c, and the switch to a dispatched thread at the end of a slice.
use cute.Base.{
  update, count, count-append, count_one, count_other, update_ne, ℕ, suc, ◌+◌, ◌-◌, ◌%◌, ◌^◌, ◌≤◌,
  ◌<◌, ◌≡◌, ◌≢◌, refl, sym, ap, subst, ◌∙◌, ◌⊎◌, inl, inr, true, false, some, [], ◌∷◌, ◌++◌, max,
  arith, ◌==◌, if◌then◌else◌, ok,
}
use cute.Sched.{
  Proc, td_oncpu, is_runnable, PercpuSched, rq_add_proc, preempt, switch_to, enqueued, enq_normal,
  queued, max_prio, default_prio, valid_prio, rr_interval,
}
use cute.Sched.Count.{rq_sum-update}
use cute.Sched.Queues.{IsReady, ListsAreValid, enqueue-IsReady}
use cute.Sched.Dispatch.{Took}

-- How often a thread stands in the lists or on the core.
abbrev pub total : PercpuSched → ℕ → ℕ
total s p = queued s p + (if s.current == p then 1 else 0)

pub record IsValid (s : PercpuSched) : Type 0 where
  -- the running thread is marked so, and every listed thread is ready
  pub oncpu : (s.procs s.current).state ≡ td_oncpu
  pub lists : ListsAreValid s
  -- no thread stands in two places
  pub unique : (p : ℕ) → total s p ≤ 1
  -- no thread of the active runqueue has a higher priority than the running one
  pub prio_low : s.current_prio ≤ default_prio
  pub active_below : (i : ℕ) → s.current_prio < i → s.rq_active i ≡ []
  -- a thread runs on after its slice only where the active runqueue is empty
  pub in_slice : rr_interval ≤ (s.procs s.current).runtime → (i : ℕ) → s.rq_active i ≡ []

-- The running thread stands in no list.
pub current_alone : (s : PercpuSched) → ((p : ℕ) → total s p ≤ 1) → queued s s.current ≡ 0
current_alone s unique = omega (arith, unique s.current, count_one s.current)

-- A write to the descriptor of a thread that stands in no list, and to the clock.
pub lists_with_current :
    (s : PercpuSched) (c ticks : ℕ) (p : Proc)
    → ListsAreValid s
    → queued s c ≡ 0
    → ListsAreValid (record s { sys_ticks = ticks; procs = update s.procs c p })
unfolding queued
lists_with_current s c ticks p v alone = record {
  ready = λ q h.
      subst IsReady (sym (update_ne s.procs c q p (λ e. not_zero q h (ap (queued s) e ∙ alone))))
        (v.ready q h);
  active_low = v.active_low;
  expired_low = v.expired_low;
}
  where
    not_zero : (q : ℕ) → 0 < queued s q → queued s q ≢ 0
    not_zero q h e = omega arith

-- The state in which `proc` takes the core.
abbrev pub preempted : PercpuSched → ℕ → ℕ → PercpuSched
preempted s proc prio = record s {
  current_prio = prio;
  procs = update s.procs proc (record (s.procs proc) {
    state = td_oncpu;
    dispatch_count = ((s.procs proc).dispatch_count + 1) % 2 ^ 32;
    rqwait_overall =
        ((s.procs proc).rqwait_overall
          + (s.sys_ticks + 2 ^ 64 - (s.procs proc).enter_runqueue_ts) % 2 ^ 64)
        % 2 ^ 64;
  });
}

-- No assertion of `preempt` fails for a runnable thread that stands in no list.
preempt_lem :
    (s : PercpuSched) (proc prio : ℕ)
    → proc ≢ s.current
    → queued s proc ≡ 0
    → is_runnable (s.procs proc).state ≡ true
    → prio ≤ max_prio
    → preempt s proc prio ≡ ok (preempted s proc prio, proc)
unfolding preempt
preempt_lem s proc prio ne alone ready low =
    let e2 : (proc == s.current) ≡ false = ground arith in
    let e3 : (queued s proc == 0) ≡ true = ground arith in
    let e5 : valid_prio prio ≡ true = ground arith in rw e2 (rw e3 (rw ready (rw e5)))

-- The thread `proc`, which stands in no list, takes the core.
unfoldable pub taken : PercpuSched → ℕ → ℕ → PercpuSched
taken s proc prio = record (preempted s proc prio) { current = proc }

queued-taken : (s : PercpuSched) (proc prio p : ℕ) → queued (taken s proc prio) p ≡ queued s p
unfolding queued taken
queued-taken s proc prio p = refl

total-taken :
    (s : PercpuSched) (proc prio p : ℕ)
    → total (taken s proc prio) p ≡ queued s p + (if proc == p then 1 else 0)
unfolding queued taken
total-taken s proc prio p = refl

taken_lists :
    (s : PercpuSched) (proc prio : ℕ)
    → ListsAreValid s
    → queued s proc ≡ 0
    → ListsAreValid (taken s proc prio)
unfolding queued taken
taken_lists s proc prio v alone = record {
  ready = λ p h.
      subst IsReady (sym (update_ne s.procs proc p _ (λ e. not_zero p h (ap (queued s) e ∙ alone))))
        (v.ready p h);
  active_low = v.active_low;
  expired_low = v.expired_low;
}
  where
    not_zero : (q : ℕ) → 0 < queued s q → queued s q ≢ 0
    not_zero q h e = omega arith

taken-IsValid :
    (s : PercpuSched) (proc prio : ℕ)
    → ListsAreValid s
    → queued s proc ≡ 0
    → IsReady (s.procs proc)
    → ((p : ℕ) → queued s p + (if proc == p then 1 else 0) ≤ 1)
    → prio ≤ default_prio
    → ((i : ℕ) → prio < i → s.rq_active i ≡ [])
    → IsValid (taken s proc prio)
unfolding taken
taken-IsValid s proc prio v alone ready unique low below = record {
  oncpu = ground arith;
  lists = taken_lists s proc prio v alone;
  unique = λ p. omega (arith, unique p, queued-taken s proc prio p);
  prio_low = low;
  active_below = below;
  in_slice = λ h. absurd (let f = ready.fresh in ground arith);
}

-- The thread `c`, which stood in no list, goes to the end of an expired list.
unfoldable pub requeue : PercpuSched → ℕ → ℕ → PercpuSched
requeue t c lower = record t {
  current_prio = lower;
  rq_expired = update t.rq_expired lower (t.rq_expired lower ++ c ∷ []);
  procs = update t.procs c (enqueued enq_normal t.sys_ticks (t.procs c));
}

requeue_counts :
    (t : PercpuSched) (c lower p : ℕ)
    → lower ≤ default_prio
    → queued (requeue t c lower) p ≡ queued t p + (if c == p then 1 else 0)
unfolding queued requeue
requeue_counts t c lower p low = omega (
  arith,
  rq_sum-update (count p) t.rq_expired lower (t.rq_expired lower ++ c ∷ []) (suc max_prio)
      (omega arith),
  count-append p (t.rq_expired lower) (c ∷ []),
)

requeue_lists :
    (t : PercpuSched) (c lower : ℕ)
    → ListsAreValid t
    → lower ≤ default_prio
    → ListsAreValid (requeue t c lower)
unfolding requeue
requeue_lists t c lower v low = record {
  ready = λ p h. enqueue-IsReady t.sys_ticks t.procs c p (ready p h);
  active_low = v.active_low;
  expired_low = λ i h. update_ne t.rq_expired lower i _ (omega arith) ∙ v.expired_low i h;
}
  where
    ready : (p : ℕ) → 0 < queued (requeue t c lower) p → (p ≡ c) ⊎ IsReady (t.procs p)
    ready p h = elim (cases p) [
      | inl e ↦ inl e
      | inr ne ↦ inr (
          v.ready p
            (omega (arith, requeue_counts t c lower p low, count_other c p (λ e. ne (sym e)))))
    ]
      where
        cases : (p : ℕ) → (p ≡ c) ⊎ (p ≢ c)
        cases p = omega arith

module _ (s t : PercpuSched) (proc prio : ℕ) (took : Took s t proc prio)
    (unique : (p : ℕ) → total s p ≤ 1) (prio_low : s.current_prio ≤ default_prio) where
  open t use {current as c}

  abbrev lower : ℕ
  lower = max 0 (t.current_prio - 1)

  lower_low : lower ≤ default_prio
  lower_low = let e = took.prio_same in omega arith

  requeued_counts : (p : ℕ) → queued (requeue t c lower) p ≡ queued t p + (if c == p then 1 else 0)
  requeued_counts p = requeue_counts t c lower p lower_low

  proc_was_queued : queued s proc ≡ queued t proc + 1
  proc_was_queued = omega (arith, took.counts proc, count_one proc)

  proc_ne : proc ≢ c
  proc_ne e =
      let f : s.current ≡ proc = sym (e ∙ took.current_same) in
      ground (arith, unique proc, proc_was_queued, f)

  not_queued : queued (requeue t c lower) proc ≡ 0
  not_queued = omega (
    arith,
    unique proc,
    proc_was_queued,
    requeued_counts proc,
    count_other c proc (λ e. proc_ne (sym e)),
  )

  proc-IsReady : IsReady ((requeue t c lower).procs proc)
  unfolding requeue
  proc-IsReady = subst IsReady (sym (update_ne t.procs c proc _ proc_ne)) took.ready

  same_total : (p : ℕ) → queued (requeue t c lower) p + (if proc == p then 1 else 0) ≡ total s p
  same_total p =
      let e : c ≡ s.current = took.current_same in
      omega (arith, requeued_counts p, took.counts p, same_one e)
    where
      same_one :
          c ≡ s.current → ◌≡◌ {A = ℕ} (if c == p then 1 else 0) (if s.current == p then 1 else 0)
      same_one e = ap (λ x. if x == p then 1 else 0) e

  -- The dispatched thread takes the core, and the running one goes to the expired runqueue.
  pub switch_to_run :
      switch_to t (some (proc, prio)) ≡ ok (preempted (requeue t c lower) proc prio, proc)
  unfolding switch_to rq_add_proc requeue
  switch_to_run =
      let e1 : valid_prio lower ≡ true = let l = lower_low in ground arith in
      rw e1 (
        preempt_lem (requeue t c lower) proc prio proc_ne not_queued (rw proc-IsReady.runnable)
          (let l = took.prio_low in omega arith))

  pub switched-IsValid :
      IsValid (taken (requeue t c lower) proc prio)
      × ((p : ℕ) → total (taken (requeue t c lower) proc prio) p ≡ total s p)
  switched-IsValid = (
    taken-IsValid (requeue t c lower) proc prio (requeue_lists t c lower took.lists lower_low)
        not_queued proc-IsReady (λ p. omega (arith, same_total p, unique p)) took.prio_low highest,
    λ p. total-taken (requeue t c lower) proc prio p ∙ same_total p,
  )
    where
      highest : (i : ℕ) → prio < i → (requeue t c lower).rq_active i ≡ []
      highest = unfold requeue in took.highest
