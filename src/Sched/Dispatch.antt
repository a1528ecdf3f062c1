-- ===== src/Sched/Dispatch.antt =====
-- `dispatch_runnable_proc` of kern/sched.c: which thread it takes, and what it leaves.
use cute.Base.{
  update, count, count_one, update_ne, ℕ, suc, ◌+◌, ◌≤◌, ◌<◌, ◌≡◌, refl, sym, ap, ◌∙◌, ◌⊎◌, inl,
  inr, Bool, true, false, Option, none, some, List, [], ◌∷◌, arith, ◌==◌, if◌then◌else◌, Returns,
}
use cute.Sched.{
  PercpuSched, rq_get_highest_prio, pop_active, dispatch_active, dispatch_from_runqueues,
  dispatch_turn, dispatch_runnable_proc, queued, max_prio, default_prio, valid_prio,
}
use cute.Sched.Count.{rq_sum-update, IsHighest, rq_get_highest_prio-IsHighest}
use cute.Sched.Queues.{IsReady, ListsAreValid, SameThreads, IsEmpty, swap_runqueues-SameThreads}

-- A thread was taken out of the lists of `s`, at priority `prio`, which leaves `t`.
pub record Took (s t : PercpuSched) (proc prio : ℕ) : Type 0 where
  pub lists : ListsAreValid t
  pub counts : (p : ℕ) → queued s p ≡ queued t p + (if proc == p then 1 else 0)
  pub ready : IsReady (t.procs proc)
  pub untouched : (p : ℕ) → queued s p ≡ 0 → t.procs p ≡ s.procs p
  pub current_same : t.current ≡ s.current
  pub prio_same : t.current_prio ≡ s.current_prio
  pub ticks_same : t.sys_ticks ≡ s.sys_ticks
  pub prio_low : prio ≤ default_prio
  pub highest : (i : ℕ) → prio < i → t.rq_active i ≡ []

-- No list of `s` holds a thread, and so none of `t`.
pub record FoundNone (s t : PercpuSched) : Type 0 where
  pub lists : ListsAreValid t
  pub same : SameThreads s t
  pub empty : (i : ℕ) → t.rq_active i ≡ []
  pub none_queued : (p : ℕ) → queued s p ≡ 0

abbrev pub Dispatched : PercpuSched → PercpuSched × Option (ℕ × ℕ) → Type 0
Dispatched s (t, none) = FoundNone s t
Dispatched s (t, some (proc, prio)) = Took s t proc prio

le-or-lt : (a b : ℕ) → (a ≤ b) ⊎ (b < a)
le-or-lt a b = omega arith

module _ (t : PercpuSched) (prio x : ℕ) (rest : List ℕ) (v : ListsAreValid t)
    (inside : prio < suc max_prio) (e : t.rq_active prio ≡ x ∷ rest) where
  abbrev popped : PercpuSched
  popped = record t { rq_active = update t.rq_active prio rest }

  popped_counts : (p : ℕ) → queued t p ≡ queued popped p + (if x == p then 1 else 0)
  unfolding queued
  popped_counts p =
      omega
        (arith, rq_sum-update (count p) t.rq_active prio rest (suc max_prio) inside, ap (count p) e)

  popped_prio : prio ≤ default_prio
  popped_prio = elim (le-or-lt prio default_prio) [
    | inl l ↦ l
    | inr g ↦ absurd (cc (v.active_low prio g))
  ]

  popped_valid : ListsAreValid popped
  popped_valid = record {
    ready = λ p h. v.ready p (omega (arith, popped_counts p));
    active_low = λ i h.
        update_ne t.rq_active prio i rest (let l = popped_prio in omega arith) ∙ v.active_low i h;
    expired_low = v.expired_low;
  }

  popped-IsReady : IsReady (t.procs x)
  popped-IsReady = let self = count_one x in v.ready x (omega (arith, popped_counts x))

  popped_highest :
      ((i : ℕ) → prio < i → i < suc max_prio → t.rq_active i ≡ [])
      → (i : ℕ) → prio < i
      → popped.rq_active i ≡ []
  popped_highest above i h =
      update_ne t.rq_active prio i rest (omega arith) ∙ elim (le-or-lt i default_prio) [
        | inl l ↦ above i h (omega arith)
        | inr g ↦ v.active_low i g
      ]

pop_active-Took :
    (s t : PercpuSched) (prio : ℕ) (xs : List ℕ)
    → ListsAreValid t
    → SameThreads s t
    → t.rq_active prio ≡ xs
    → IsHighest t.rq_active (suc max_prio) (some prio)
    → Returns (Dispatched s) (pop_active t prio xs)
unfolding pop_active
pop_active-Took s t prio [] v same e (a, b, c) = absurd (b e)
pop_active-Took s t prio (x ∷ rest) v same e (a, b, c) = (
  (record t { rq_active = update t.rq_active prio rest }, some (x, prio)),
  refl,
  record {
    lists = popped_valid t prio x rest v a e;
    counts = λ p. sym (same.counts p) ∙ popped_counts t prio x rest v a e p;
    ready = popped-IsReady t prio x rest v a e;
    untouched = same.untouched;
    current_same = same.current_same;
    prio_same = same.prio_same;
    ticks_same = same.ticks_same;
    prio_low = popped_prio t prio x rest v a e;
    highest = popped_highest t prio x rest v a e c;
  },
)

-- Whose turn it is next is no matter of the lists.
with_turn :
    (s t : PercpuSched)
    → ListsAreValid t
    → SameThreads s t
    → let t' = record t { just_queued_turn = true } in ListsAreValid t' × SameThreads s t'
unfolding queued
with_turn s t v same = (
  record { ready = v.ready; active_low = v.active_low; expired_low = v.expired_low },
  record {
    counts = same.counts;
    untouched = same.untouched;
    current_same = same.current_same;
    prio_same = same.prio_same;
    ticks_same = same.ticks_same;
  },
)

dispatch_active-Dispatched :
    (s t : PercpuSched) (o : Option ℕ)
    → ListsAreValid t
    → SameThreads s t
    → (IsEmpty t.rq_active → (p : ℕ) → queued t p ≡ 0)
    → IsHighest t.rq_active (suc max_prio) o
    → Returns (Dispatched s) (dispatch_active t o)
unfolding dispatch_active
dispatch_active-Dispatched s t none v same gone h = (
  (t, none),
  refl,
  record {
    lists = v;
    same = same;
    empty = λ i. elim (le-or-lt i default_prio) [
      | inl l ↦ h i (omega arith)
      | inr g ↦ v.active_low i g
    ];
    none_queued = λ p. sym (same.counts p) ∙ gone h p;
  },
)
dispatch_active-Dispatched s t (some prio) v same gone h =
    let (v', same') = with_turn s t v same in
    let valid : valid_prio prio ≡ true = let l = h.0 in ground arith in
    rw valid (
      pop_active-Took s (record t { just_queued_turn = true }) prio (t.rq_active prio) v' same' refl
        h)

dispatch_from_runqueues-Dispatched :
    (s : PercpuSched) → ListsAreValid s → Returns (Dispatched s) (dispatch_from_runqueues s)
unfolding dispatch_from_runqueues
dispatch_from_runqueues-Dispatched s v =
    let (t, run, (v', same, gone)) = swap_runqueues-SameThreads s v in
    rw run (
      dispatch_active-Dispatched s t (rq_get_highest_prio t.rq_active) v' same gone
        (rq_get_highest_prio-IsHighest t.rq_active))

just_queued-Took :
    (s : PercpuSched) (proc : ℕ) (rest : List ℕ)
    → ListsAreValid s
    → s.just_queued ≡ proc ∷ rest
    → Took s (record s { just_queued_turn = false; just_queued = rest }) proc default_prio
unfolding queued
just_queued-Took s proc rest v e = record {
  lists = record {
    ready = λ p h. v.ready p (omega (arith, ap (count p) e));
    active_low = v.active_low;
    expired_low = v.expired_low;
  };
  counts = λ p. omega (arith, ap (count p) e);
  ready = let self = count_one proc in v.ready proc (omega (arith, ap (count proc) e));
  untouched = λ p h. refl;
  current_same = refl;
  prio_same = refl;
  ticks_same = refl;
  prio_low = omega arith;
  highest = v.active_low;
}

dispatch_turn-Dispatched :
    (s : PercpuSched) (turn : Bool) (xs : List ℕ)
    → ListsAreValid s
    → s.just_queued ≡ xs
    → Returns (Dispatched s) (dispatch_turn s turn xs)
unfolding dispatch_turn
dispatch_turn-Dispatched s true (x ∷ rest) v e = (_, refl, just_queued-Took s x rest v e)
dispatch_turn-Dispatched s true [] v e = dispatch_from_runqueues-Dispatched s v
dispatch_turn-Dispatched s false xs v e = dispatch_from_runqueues-Dispatched s v

-- From valid lists the dispatch does not panic. It takes one thread out of them, whose priority is
-- at least that of every thread left in the active runqueue, or finds that no list, active, expired or
-- just queued, holds a thread.
pub dispatch_runnable_proc-Dispatched :
    (s : PercpuSched) → ListsAreValid s → Returns (Dispatched s) (dispatch_runnable_proc s)
unfolding dispatch_runnable_proc
dispatch_runnable_proc-Dispatched s v =
    dispatch_turn-Dispatched s s.just_queued_turn s.just_queued v refl
