-- ===== src/Sched/Queues.antt =====
-- The facts about the lists of kern/sched.c that every operation keeps, and the swap of the
-- runqueues.
use cute.Base.{
  update, count, count-append, update_ne, ℕ, suc, ◌+◌, ◌<◌, ◌≡◌, ◌≢◌, refl, ◌∙◌, ◌⊎◌, inl, inr,
  true, false, Option, none, some, List, [], ◌∷◌, ◌++◌, arith, Returns,
}
use cute.Sched.{
  Proc, td_runnable, Runqueue, PercpuSched, rq_get_highest_prio, rq_empty, rq_add_proc,
  move_just_queued, swap_runqueues, rq_count, queued, max_prio, default_prio, enqueued, enq_normal,
}
use cute.Sched.Count.{rq_sum-empty, rq_sum-update, rq_get_highest_prio-IsHighest}

-- A thread that waits to run: it has used nothing of its next slice.
pub record IsReady (p : Proc) : Type 0 where
  pub runnable : p.state ≡ td_runnable
  pub fresh : p.runtime ≡ 0

-- Every thread in a list is ready, and none stands above the default priority.
pub record ListsAreValid (s : PercpuSched) : Type 0 where
  pub ready : (p : ℕ) → 0 < queued s p → IsReady (s.procs p)
  pub active_low : (i : ℕ) → default_prio < i → s.rq_active i ≡ []
  pub expired_low : (i : ℕ) → default_prio < i → s.rq_expired i ≡ []

-- The move of the threads `xs` to the list of the default priority.
record Moved (procs procs' : ℕ → Proc) (rq rq' : Runqueue) (xs : List ℕ) : Type 0 where
  counts : (p : ℕ) → rq_count p rq' (suc max_prio) ≡ rq_count p rq (suc max_prio) + count p xs
  others : (i : ℕ) → i ≢ default_prio → rq' i ≡ rq i
  ready : (p : ℕ) → IsReady (procs p) → IsReady (procs' p)
  untouched : (p : ℕ) → count p xs ≡ 0 → procs' p ≡ procs p

pub enqueue-IsReady :
    (ticks : ℕ) (procs : ℕ → Proc) (x p : ℕ)
    → (p ≡ x) ⊎ IsReady (procs p)
    → IsReady (update procs x (enqueued enq_normal ticks (procs x)) p)
enqueue-IsReady ticks procs x p h = ground arith

Moved-cons :
    (ticks : ℕ) (procs procs' : ℕ → Proc) (rq rq' : Runqueue) (x : ℕ) (xs : List ℕ)
    → Moved
        (update procs x (enqueued enq_normal ticks (procs x)))
        procs'
        (update rq default_prio (rq default_prio ++ x ∷ []))
        rq'
        xs
    → Moved procs procs' rq rq' (x ∷ xs)
Moved-cons ticks procs procs' rq rq' x xs m = record {
  counts = λ p. omega (
    arith,
    m.counts p,
    rq_sum-update (count p) rq default_prio (rq default_prio ++ x ∷ []) (suc max_prio)
        (omega arith),
    count-append p (rq default_prio) (x ∷ []),
  );
  others = λ i h. m.others i h ∙ update_ne rq default_prio i (rq default_prio ++ x ∷ []) h;
  ready = λ p h. m.ready p (enqueue-IsReady ticks procs x p (inr h));
  untouched = λ p h. m.untouched p (omega arith) ∙ update_ne procs x p _ (ne p h);
}
  where
    ne : (p : ℕ) → count p (x ∷ xs) ≡ 0 → p ≢ x
    ne p h = ground arith

move_just_queued-Moved :
    (ticks : ℕ) (xs : List ℕ) (procs : ℕ → Proc) (rq : Runqueue)
    → Returns (λ (rq', procs'). Moved procs procs' rq rq' xs) (move_just_queued ticks procs rq xs)
unfolding move_just_queued rq_add_proc
move_just_queued-Moved ticks [] procs rq = (
  (rq, procs),
  refl,
  record {
    counts = λ p. omega arith;
    others = λ i h. refl;
    ready = λ p h. h;
    untouched = λ p h. refl;
  },
)
move_just_queued-Moved ticks (x ∷ xs) procs rq =
    let (r, run, m) =
      move_just_queued-Moved ticks xs (update procs x (enqueued enq_normal ticks (procs x)))
        (update rq default_prio (rq default_prio ++ x ∷ [])) in
    (r, run, Moved-cons ticks procs r.1 rq r.0 x xs m)

-- No list of the runqueue holds a thread.
abbrev pub IsEmpty : Runqueue → Type 0
IsEmpty rq = (i : ℕ) → i < suc max_prio → rq i ≡ []

pub rq_empty_cases :
    (rq : Runqueue) → ((rq_empty rq ≡ true) × IsEmpty rq) ⊎ ((rq_empty rq ≡ false) × (¬ IsEmpty rq))
unfolding rq_empty
rq_empty_cases rq = go (rq_get_highest_prio rq) refl
  where
    go :
        (o : Option ℕ)
        → rq_get_highest_prio rq ≡ o
        → ((rq_empty rq ≡ true) × IsEmpty rq) ⊎ ((rq_empty rq ≡ false) × (¬ IsEmpty rq))
    go none e = inl (rw (e, rq_empty), rw e at (rq_get_highest_prio-IsHighest rq))
    go (some h) e =
        let (inside, filled, _) = rw e at (rq_get_highest_prio-IsHighest rq) in
        inr (rw (e, rq_empty), λ all. filled (all h inside))

-- The lists of `t` hold the same threads as those of `s`; the threads in no list, and what runs on
-- the core, are as they were.
pub record SameThreads (s t : PercpuSched) : Type 0 where
  pub counts : (p : ℕ) → queued t p ≡ queued s p
  pub untouched : (p : ℕ) → queued s p ≡ 0 → t.procs p ≡ s.procs p
  pub current_same : t.current ≡ s.current
  pub prio_same : t.current_prio ≡ s.current_prio
  pub ticks_same : t.sys_ticks ≡ s.sys_ticks

swap_lem :
    (s : PercpuSched)
    → ListsAreValid s
    → ((i : ℕ) → i < suc max_prio → s.rq_active i ≡ [])
    → (rq : Runqueue) (procs : ℕ → Proc) → Moved s.procs procs s.rq_expired rq s.just_queued
    → let t = record s {
      rq_active = rq;
      rq_expired = s.rq_active;
      just_queued = [];
      procs = procs;
    } in
      ListsAreValid t × SameThreads s t × (IsEmpty rq → (p : ℕ) → queued t p ≡ 0)
unfolding queued
swap_lem s v empty rq procs m = (
  record {
    ready = λ p h. m.ready p (v.ready p (omega (arith, m.counts p, none_active p)));
    active_low = λ i h. m.others i (omega arith) ∙ v.expired_low i h;
    expired_low = v.active_low;
  },
  record {
    counts = λ p. omega (arith, m.counts p, none_active p);
    untouched = λ p h. m.untouched p (omega arith);
    current_same = refl;
    prio_same = refl;
    ticks_same = refl;
  },
  λ gone p. omega (arith, none_active p, rq_sum-empty (count p) refl rq (suc max_prio) gone),
)
  where
    none_active : (p : ℕ) → rq_count p s.rq_active (suc max_prio) ≡ 0
    none_active p = rq_sum-empty (count p) refl s.rq_active (suc max_prio) empty

-- Where the active runqueue is empty the runqueues are swapped and the just queued threads moved;
-- the lists go on to hold the same threads, and if the active ones are empty then, all are.
pub swap_runqueues-SameThreads :
    (s : PercpuSched)
    → ListsAreValid s
    → Returns
        (λ t. ListsAreValid t × SameThreads s t × (IsEmpty t.rq_active → (p : ℕ) → queued t p ≡ 0))
        (swap_runqueues s)
unfolding swap_runqueues
swap_runqueues-SameThreads s v = elim (rq_empty_cases s.rq_active) [
  | inl (e, empty) ↦
      let (r, run, m) = move_just_queued-Moved s.sys_ticks s.just_queued s.procs s.rq_expired in
      rw e (
        record s { rq_active = r.0; rq_expired = s.rq_active; just_queued = []; procs = r.1 },
        rw run,
        swap_lem s v empty r.0 r.1 m,
      )
  | inr (e, filled) ↦ rw e (
    s,
    refl,
    (
      v,
      record {
        counts = λ p. refl;
        untouched = λ p h. refl;
        current_same = refl;
        prio_same = refl;
        ticks_same = refl;
      },
      λ gone. absurd (filled gone),
    ),
  )
]
