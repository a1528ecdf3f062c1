-- ===== src/Sched/Starvation/Step.antt =====
-- Each dispatch of kern/sched.c brings a thread of the active runqueue nearer to the core.
use cute.Base.{
  update, count, ℕ, suc, ◌+◌, ◌*◌, ◌<◌, ◌≡◌, ◌≢◌, refl, ap, ◌⊎◌, inl, inr, Bool, true, false,
  Option, none, some, List, [], ◌∷◌, arith, Bool-cases, ◌==◌, if◌then◌else◌, length, Returns,
}
use cute.Sched.{
  PercpuSched, rq_get_highest_prio, pop_active, dispatch_active, dispatch_from_runqueues,
  dispatch_turn, dispatch_runnable_proc, swap_runqueues, rq_sum, rq_count, max_prio, valid_prio,
}
use cute.Sched.Count.{rq_sum-empty, rq_sum-update, IsHighest, rq_get_highest_prio-IsHighest}
use cute.Sched.Queues.{rq_empty_cases}

-- The number of threads in the active runqueue.
unfoldable pub active_size : PercpuSched → ℕ
active_size s = rq_sum length s.rq_active (suc max_prio)

-- The dispatches until the active runqueue is empty, at most.
unfoldable pub turns : PercpuSched → ℕ
turns s = active_size s * 2 + (if s.just_queued_turn then 1 else 0)

-- The thread stands in the active runqueue.
abbrev pub Waits : ℕ → PercpuSched → Type 0
Waits x s = 0 < rq_count x s.rq_active (suc max_prio)

abbrev pub Progress : PercpuSched → ℕ → PercpuSched × Option (ℕ × ℕ) → Type 0
Progress s x (t, none) = ⊥
Progress s x (t, some (proc, prio)) = (turns t < turns s) × ((proc ≡ x) ⊎ Waits x t)

module _ (s : PercpuSched) (x : ℕ) (w : Waits x s) where
  popped_count :
      (prio y : ℕ) (rest : List ℕ)
      → s.rq_active prio ≡ y ∷ rest
      → prio < suc max_prio
      → rq_count x (update s.rq_active prio rest) (suc max_prio) + (if y == x then 1 else 0)
        ≡ rq_count x s.rq_active (suc max_prio)
  popped_count prio y rest e inside =
      omega
        (arith, rq_sum-update (count x) s.rq_active prio rest (suc max_prio) inside, ap (count x) e)

  pop_active-Progress :
      (prio : ℕ) (xs : List ℕ)
      → s.rq_active prio ≡ xs
      → prio < suc max_prio
      → xs ≢ []
      → Returns (Progress s x) (pop_active (record s { just_queued_turn = true }) prio xs)
  unfolding pop_active turns active_size
  pop_active-Progress prio [] e inside some_there = absurd (some_there refl)
  pop_active-Progress prio (y ∷ rest) e inside some_there = (
    (
      record s { rq_active = update s.rq_active prio rest; just_queued_turn = true },
      some (y, prio),
    ),
    refl,
    (
      omega (arith, rq_sum-update length s.rq_active prio rest (suc max_prio) inside, ap length e),
      elim (Bool-cases (y == x)) [ inl hit ↦ inl (ground arith) | inr miss ↦ inr (left miss) ],
    ),
  )
    where
      left : (y == x) ≡ false → 0 < rq_count x (update s.rq_active prio rest) (suc max_prio)
      left miss = ground (arith, popped_count prio y rest e inside, w)

  dispatch_active-Progress :
      (o : Option ℕ)
      → IsHighest s.rq_active (suc max_prio) o
      → Returns (Progress s x) (dispatch_active s o)
  unfolding dispatch_active
  dispatch_active-Progress none h =
      absurd (omega (arith, w, rq_sum-empty (count x) refl s.rq_active (suc max_prio) h))
  dispatch_active-Progress (some prio) (a, b, c) =
      let valid : valid_prio prio ≡ true = ground arith in
      rw valid (pop_active-Progress prio (s.rq_active prio) refl a b)

  dispatch_from_runqueues-Progress : Returns (Progress s x) (dispatch_from_runqueues s)
  unfolding dispatch_from_runqueues swap_runqueues
  dispatch_from_runqueues-Progress = elim (rq_empty_cases s.rq_active) [
    | inl (e, none_there) ↦
        absurd (omega (arith, w, rq_sum-empty (count x) refl s.rq_active (suc max_prio) none_there))
    | inr (e, _) ↦ rw e (
        dispatch_active-Progress (rq_get_highest_prio s.rq_active)
          (rq_get_highest_prio-IsHighest s.rq_active))
  ]

  dispatch_turn-Progress :
      (turn : Bool) (xs : List ℕ)
      → s.just_queued_turn ≡ turn
      → Returns (Progress s x) (dispatch_turn s turn xs)
  unfolding dispatch_turn turns active_size
  dispatch_turn-Progress true (y ∷ rest) e = (
    (record s { just_queued_turn = false; just_queued = rest }, some (y, 10)),
    refl,
    (ground (arith, e), inr w),
  )
  dispatch_turn-Progress true [] e = dispatch_from_runqueues-Progress
  dispatch_turn-Progress false xs e = dispatch_from_runqueues-Progress

  -- While a thread waits in the active runqueue, each dispatch takes some thread, lowers the number
  -- of dispatches until the runqueue is empty, and takes the waiting thread or leaves it there.
  pub dispatch_runnable_proc-Progress : Returns (Progress s x) (dispatch_runnable_proc s)
  unfolding dispatch_runnable_proc
  dispatch_runnable_proc-Progress = dispatch_turn-Progress s.just_queued_turn s.just_queued refl
