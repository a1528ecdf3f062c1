-- ===== src/Sched/Invariant.antt =====
-- The invariant of kern/sched.c, which the timer interrupt and the enqueueing of a thread keep.
pub mod Switch
use cute.Base.{
  update, count, count-append, update_same, count_one, count_other, update_ne, ℕ, zero, suc, ◌+◌,
  ◌-◌, ◌%◌, ◌^◌, ◌≤◌, ◌<◌, ◌≡◌, ◌≢◌, refl, sym, ap, subst, ◌∙◌, ◌⊎◌, inl, inr, Bool, true, false,
  not, max, Option, none, some, List, [], ◌∷◌, ◌++◌, arith, Bool-cases, ◌==◌, ltb, leb, ltb→lt,
  if◌then◌else◌, Outcome, ok, panic, ◌>>=◌, assert, Returns,
}
use cute.Sched.{
  Proc, td_runnable, td_oncpu, Runqueue, PercpuSched, rq_init, rq_get_highest_prio,
  sched_percpu_area_init, sched_enqueue, dispatch_runnable_proc, account_tick, count_slice_end,
  switch_to, end_slice, stay, sched_tick, ticks_handler, enqueued, enq_normal, rq_count, queued,
  max_prio, default_prio, valid_prio, rr_interval,
}
use cute.Sched.Count.{rq_sum-empty, IsHighest, rq_get_highest_prio-IsHighest}
use cute.Sched.Queues.{IsReady, ListsAreValid, enqueue-IsReady}
use cute.Sched.Dispatch.{FoundNone, Dispatched, dispatch_runnable_proc-Dispatched}
use Switch.{
  IsValid, total, taken, requeue, preempted, switch_to_run, switched-IsValid, current_alone,
  lists_with_current,
}

-- `t` is valid, and each thread stands in it as often as in `s`, on the core or in a list.
abbrev pub KeepsThreads : PercpuSched → PercpuSched → Type 0
KeepsThreads s t = IsValid t × ((p : ℕ) → total t p ≡ total s p)

-- What holds at the head of `sched_tick` and until the dispatch.
pub record IsSteady (s : PercpuSched) : Type 0 where
  pub oncpu : (s.procs s.current).state ≡ td_oncpu
  pub lists : ListsAreValid s
  pub unique : (p : ℕ) → total s p ≤ 1
  pub prio_low : s.current_prio ≤ default_prio

-- A write to the descriptor of the running thread, and to the clock.
touched : PercpuSched → ℕ → Proc → PercpuSched
touched s ticks p = record s { sys_ticks = ticks; procs = update s.procs s.current p }

total-touched :
    (s : PercpuSched) (ticks : ℕ) (p : Proc) (q : ℕ) → total (touched s ticks p) q ≡ total s q
unfolding queued touched
total-touched s ticks p q = refl

touched-IsSteady :
    (s : PercpuSched) (ticks : ℕ) (p : Proc)
    → IsSteady s
    → p.state ≡ td_oncpu
    → IsSteady (touched s ticks p)
unfolding touched
touched-IsSteady s ticks p v runs = record {
  oncpu = rw (update_same s.procs s.current p) runs;
  lists = lists_with_current s s.current ticks p v.lists (current_alone s v.unique);
  unique = λ q. omega (arith, total-touched s ticks p q, v.unique q);
  prio_low = v.prio_low;
}

-- The outcome of `sched_tick`, once its thread is on the core.
abbrev Ticked : PercpuSched → PercpuSched × ℕ → Type 0
Ticked s (t, next) = KeepsThreads s (record t { current = next })

module _ (s : PercpuSched) (v : IsSteady s) where
  idle-IsValid : (t : PercpuSched) → FoundNone s t → KeepsThreads s t
  idle-IsValid t found = (
    record {
      oncpu =
          ap (λ p. p.state)
            (ap t.procs same.current_same ∙ same.untouched s.current (current_alone s v.unique))
          ∙ v.oncpu;
      lists = found.lists;
      unique = λ p. omega (arith, totals p, v.unique p);
      prio_low = rw same.prio_same v.prio_low;
      active_below = λ i h. found.empty i;
      in_slice = λ h. found.empty;
    },
    totals,
  )
    where
      open found use {same}

      totals : (p : ℕ) → total t p ≡ total s p
      totals p = ground (arith, same.counts p, same.current_same)

  switch_to-Ticked :
      (r : PercpuSched × Option (ℕ × ℕ)) → Dispatched s r → Returns (Ticked s) (switch_to r.0 r.1)
  unfolding taken switch_to
  switch_to-Ticked (t, none) found = ((t, t.current), refl, idle-IsValid t found)
  switch_to-Ticked (t, some (proc, prio)) took = (
    (preempted (requeue t t.current (max 0 (t.current_prio - 1))) proc prio, proc),
    switch_to_run s t proc prio took v.unique v.prio_low,
    switched-IsValid s t proc prio took v.unique v.prio_low,
  )

-- The parts of `sched_tick`, each as a write to the descriptor of the running thread.
ticking : Proc → ℕ → Proc
ticking p prio = record p {
  runtime = (p.runtime + 1) % 2 ^ 64;
  runtime_overall = (p.runtime_overall + 1) % 2 ^ 64;
  prio_map = update p.prio_map prio ((p.prio_map prio + 1) % 2 ^ 64);
}

account_tick_lem :
    (s : PercpuSched)
    → account_tick s
      ≡ touched s ((s.sys_ticks + 1) % 2 ^ 64) (ticking (s.procs s.current) s.current_prio)
unfolding account_tick touched ticking
account_tick_lem s = refl

slice_ended : Proc → Proc
slice_ended p = record p { preempt_slice_end = (p.preempt_slice_end + 1) % 2 ^ 32 }

count_slice_end_lem :
    (s : PercpuSched) → count_slice_end s ≡ touched s s.sys_ticks (slice_ended (s.procs s.current))
unfolding touched slice_ended
count_slice_end_lem s = refl

pub ended-IsSteady : (s : PercpuSched) → IsSteady s → IsSteady (count_slice_end s)
unfolding slice_ended
ended-IsSteady s v =
    subst IsSteady (sym (count_slice_end_lem s))
      (touched-IsSteady s s.sys_ticks (slice_ended (s.procs s.current)) v v.oncpu)

ended_total : (s : PercpuSched) (p : ℕ) → total (count_slice_end s) p ≡ total s p
ended_total s p =
    ap (λ t. total t p) (count_slice_end_lem s)
    ∙ total-touched s s.sys_ticks (slice_ended (s.procs s.current)) p

end_slice-Ticked : (s : PercpuSched) → IsSteady s → Returns (Ticked s) (end_slice s)
unfolding end_slice
end_slice-Ticked s v =
    let (r, run, d) =
      dispatch_runnable_proc-Dispatched (count_slice_end s) (ended-IsSteady s v).lists in
    let (r', run', (valid, same)) = switch_to-Ticked (count_slice_end s) (ended-IsSteady s v) r d in
    (r', rw run run', (valid, λ p. same p ∙ ended_total s p))

stay_lem :
    (s : PercpuSched) (o : Option ℕ)
    → ((i : ℕ) → s.current_prio < i → s.rq_active i ≡ [])
    → IsHighest s.rq_active (suc max_prio) o
    → stay s o ≡ ok (s, s.current)
unfolding stay
stay_lem s none below h = refl
stay_lem s (some prio) below (a, b, c) = elim (Bool-cases (ltb s.current_prio prio)) [
  | inl higher ↦ absurd (b (below prio (ltb→lt _ _ higher)))
  | inr low ↦ rw low
]

-- No thread of the active runqueue has a higher priority, so the running thread goes on.
pub stay_run :
    (s : PercpuSched)
    → ((i : ℕ) → s.current_prio < i → s.rq_active i ≡ [])
    → stay s (rq_get_highest_prio s.rq_active) ≡ ok (s, s.current)
stay_run s below =
    stay_lem s (rq_get_highest_prio s.rq_active) below (rq_get_highest_prio-IsHighest s.rq_active)

IsValid→IsSteady : (s : PercpuSched) → IsValid s → IsSteady s
IsValid→IsSteady s v = record {
  oncpu = v.oncpu;
  lists = v.lists;
  unique = v.unique;
  prio_low = v.prio_low;
}

pub accounted-IsSteady : (s : PercpuSched) → IsValid s → IsSteady (account_tick s)
unfolding ticking
accounted-IsSteady s v = subst IsSteady (sym (account_tick_lem s)) (
    touched-IsSteady s _ (ticking (s.procs s.current) s.current_prio) (IsValid→IsSteady s v)
      v.oncpu)

accounted_total : (s : PercpuSched) (p : ℕ) → total (account_tick s) p ≡ total s p
accounted_total s p = ap (λ t. total t p) (account_tick_lem s) ∙ total-touched s _ _ p

pub accounted-IsValid :
    (s : PercpuSched)
    → IsValid s
    → leb rr_interval ((account_tick s).procs (account_tick s).current).runtime ≡ false
    → IsValid (account_tick s)
accounted-IsValid s v short =
    let t = accounted-IsSteady s v in
    record {
      oncpu = t.oncpu;
      lists = t.lists;
      unique = t.unique;
      prio_low = t.prio_low;
      active_below = below;
      in_slice = λ h. absurd (ground arith);
    }
  where
    below : (i : ℕ) → (account_tick s).current_prio < i → (account_tick s).rq_active i ≡ []
    below = unfold account_tick in v.active_below

pub slice_over : PercpuSched → Bool
slice_over s = leb rr_interval ((account_tick s).procs (account_tick s).current).runtime

-- In a valid state a tick ends the slice or leaves the running thread where it is.
pub sched_tick_cases :
    (s : PercpuSched)
    → IsValid s
    → ((slice_over s ≡ true) × (sched_tick s ≡ end_slice (account_tick s)))
      ⊎ ((slice_over s ≡ false) × (sched_tick s ≡ ok (account_tick s, (account_tick s).current)))
unfolding sched_tick slice_over
sched_tick_cases s v =
    let t = account_tick s in
    let steady = accounted-IsSteady s v in
    let e1 : valid_prio t.current_prio ≡ true = let l = steady.prio_low in ground arith in
    elim (Bool-cases (leb rr_interval (t.procs t.current).runtime)) [
      | inl over ↦ inl (over, rw (steady.oncpu, e1) (rw over))
      | inr short ↦ inr (
        short,
        rw (steady.oncpu, e1) (rw short (stay_run t (accounted-IsValid s v short).active_below)),
      )
    ]

sched_tick-Ticked : (s : PercpuSched) → IsValid s → Returns (Ticked s) (sched_tick s)
unfolding slice_over
sched_tick-Ticked s v = elim (sched_tick_cases s v) [
  | inl (over, e) ↦ rw e (retotal (end_slice-Ticked (account_tick s) (accounted-IsSteady s v)))
  | inr (short, e) ↦ rw e (
      retotal (
        (account_tick s, (account_tick s).current),
        refl,
        (accounted-IsValid s v short, λ p. refl),
      ))
]
  where
    retotal :
        {o : Outcome (PercpuSched × ℕ)} → Returns (Ticked (account_tick s)) o → Returns (Ticked s) o
    retotal (r, run, (valid, same)) = (r, run, (valid, λ p. same p ∙ accounted_total s p))

-- From a valid state of the core the timer interrupt never panics: it leads to a valid state in
-- which every thread stands as often as before, on the core or in a list. So no thread is lost or
-- doubled, and the panic about a thread of higher priority is never reached.
pub ticks_handler-IsValid :
    (s : PercpuSched) → IsValid s → Returns (KeepsThreads s) (ticks_handler s)
unfolding ticks_handler
ticks_handler-IsValid s v =
    let ((t, next), run, kept) = sched_tick-Ticked s v in
    (record t { current = next }, rw run, kept)

enqueued_counts :
    (s : PercpuSched) (proc p : ℕ)
    → total (sched_enqueue s proc) p ≡ total s p + (if proc == p then 1 else 0)
unfolding queued sched_enqueue
enqueued_counts s proc p = omega (arith, count-append p s.just_queued (proc ∷ []))

enqueued_lists :
    (s : PercpuSched) (proc : ℕ) → ListsAreValid s → ListsAreValid (sched_enqueue s proc)
unfolding queued sched_enqueue
enqueued_lists s proc v = record {
  ready = λ p h. enqueue-IsReady s.sys_ticks s.procs proc p (ready p h);
  active_low = v.active_low;
  expired_low = v.expired_low;
}
  where
    cases : (p : ℕ) → (p ≡ proc) ⊎ (p ≢ proc)
    cases p = omega arith

    ready : (p : ℕ) → 0 < queued (sched_enqueue s proc) p → (p ≡ proc) ⊎ IsReady (s.procs p)
    ready p h = elim (cases p) [
      | inl e ↦ inl e
      | inr ne ↦ inr (
          v.ready p (
            omega (
              arith,
              count-append p s.just_queued (proc ∷ []),
              count_other proc p (λ e. ne (sym e)),
            )))
    ]

-- Enqueueing a thread that is new to a valid core gives a valid core with that thread once more,
-- and every other thread as often as before.
pub sched_enqueue-IsValid :
    (s : PercpuSched) (proc : ℕ)
    → IsValid s
    → total s proc ≡ 0
    → IsValid (sched_enqueue s proc)
      × ((p : ℕ) → total (sched_enqueue s proc) p ≡ total s p + (if proc == p then 1 else 0))
sched_enqueue-IsValid s proc v new = (
  record {
    oncpu = running;
    lists = enqueued_lists s proc v.lists;
    unique = unique;
    prio_low = unfold sched_enqueue in v.prio_low;
    active_below = unfold sched_enqueue in v.active_below;
    in_slice = in_slice;
  },
  enqueued_counts s proc,
)
  where
    ne : s.current ≢ proc
    ne e = ground (arith, new, e)

    cases : (p : ℕ) → (proc ≡ p) ⊎ (proc ≢ p)
    cases p = omega arith

    unique : (p : ℕ) → total (sched_enqueue s proc) p ≤ 1
    unique p = elim (cases p) [
      | inl e ↦ omega (arith, enqueued_counts s proc p, ap (total s) e, new, at_most_one p)
      | inr far ↦ omega (arith, enqueued_counts s proc p, count_other proc p far, v.unique p)
    ]
      where
        at_most_one : (p : ℕ) → (if proc == p then 1 else 0) ≤ 1
        at_most_one p = ground arith

    still : (sched_enqueue s proc).procs s.current ≡ s.procs s.current
    still = unfold sched_enqueue in update_ne s.procs proc s.current _ ne

    running : ((sched_enqueue s proc).procs (sched_enqueue s proc).current).state ≡ td_oncpu
    running =
        unfold sched_enqueue in
        (ap (λ p. p.state) (update_ne s.procs proc s.current _ ne) ∙ v.oncpu)

    in_slice :
        rr_interval ≤ ((sched_enqueue s proc).procs (sched_enqueue s proc).current).runtime
        → (i : ℕ) → (sched_enqueue s proc).rq_active i ≡ []
    in_slice h =
        unfold sched_enqueue in
        v.in_slice (subst (λ p. rr_interval ≤ p.runtime) (update_ne s.procs proc s.current _ ne) h)
