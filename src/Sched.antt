-- ===== src/Sched.antt =====
-- kern/sched.c and include/sched.h: the scheduler of one core. A thread is its number; its
-- descriptor stands in the table `procs`, and a list of descriptors is the list of their numbers.
-- `current` is the thread on the core: `ticks_handler` (arch/ia64/_idt.S) switches to the thread
-- that `sched_tick` returns. The priority -1 (`UNDEF_PRIO`) is `none`. The configuration is that of
-- include/conf_sched.h: no trace, no statistics output.
mod Count
mod Queues
mod Dispatch
pub mod Invariant
pub mod Starvation
pub mod Boot
mod Tests
use cute.Base.{
  ℕ, zero, suc, ◌+◌, ◌-◌, ◌%◌, ◌^◌, max, Bool, true, false, not, ◌&&◌, ◌||◌, Option, none, some,
  List, [], ◌∷◌, ◌++◌, update, count, ltb, leb, ◌==◌, if◌then◌else◌, Outcome, ok, panic, ◌>>=◌,
  ◌>>◌, assert,
}

pub data ProcState : Type 0 where
  td_runnable td_oncpu td_invalid : ProcState

abbrev pub is_runnable : ProcState → Bool
is_runnable td_runnable = true
is_runnable td_oncpu = false
is_runnable td_invalid = false

abbrev pub is_oncpu : ProcState → Bool
is_oncpu td_runnable = false
is_oncpu td_oncpu = true
is_oncpu td_invalid = false

-- What `struct proc` holds for the scheduler.
pub record Proc : Type 0 where
  pub state : ProcState
  pub runtime : ℕ
  pub enter_runqueue_ts : ℕ
  pub runtime_overall : ℕ
  pub dispatch_count : ℕ
  pub rqwait_overall : ℕ
  pub prio_map : ℕ → ℕ
  pub preempt_high_prio : ℕ
  pub preempt_slice_end : ℕ

abbrev pub rr_interval : ℕ
rr_interval = 2

abbrev pub max_prio : ℕ
max_prio = 19

abbrev pub default_prio : ℕ
default_prio = 10

abbrev pub valid_prio : ℕ → Bool
valid_prio prio = leb prio max_prio

-- The list of the threads at each priority.
abbrev pub Runqueue : Type 0
Runqueue = ℕ → List ℕ

abbrev pub rq_init : Runqueue
rq_init prio = []

abbrev pub list_empty : List ℕ → Bool
list_empty [] = true
list_empty (x ∷ xs) = false

-- The loop from priority `i - 1` down.
pub highest_below : Runqueue → ℕ → Option ℕ
highest_below rq zero = none
highest_below rq (suc i) =
    let rest = highest_below rq i in if not (list_empty (rq i)) then some i else rest

pub rq_get_highest_prio : Runqueue → Option ℕ
rq_get_highest_prio rq = highest_below rq (suc max_prio)

abbrev is_none : Option ℕ → Bool
is_none none = true
is_none (some prio) = false

pub rq_empty : Runqueue → Bool
rq_empty rq = is_none (rq_get_highest_prio rq)

-- `struct percpu_sched`, the running thread and the descriptors
pub record PercpuSched : Type 0 where
  pub sys_ticks : ℕ
  pub rq_active : Runqueue
  pub rq_expired : Runqueue
  pub just_queued : List ℕ
  pub current_prio : ℕ
  pub just_queued_turn : Bool
  pub current : ℕ
  pub procs : ℕ → Proc

-- `proc_init`: the descriptor is cleared and marked invalid.
abbrev pub proc_init : Proc
proc_init = record {
  state = td_invalid;
  runtime = 0;
  enter_runqueue_ts = 0;
  runtime_overall = 0;
  dispatch_count = 0;
  rqwait_overall = 0;
  prio_map = λ prio. 0;
  preempt_high_prio = 0;
  preempt_slice_end = 0;
}

-- The scheduler's globals at boot.
pub sched_percpu_area_init : ℕ → (ℕ → Proc) → PercpuSched
sched_percpu_area_init current procs = record {
  sys_ticks = 0;
  rq_active = rq_init;
  rq_expired = rq_init;
  just_queued = [];
  current_prio = 0;
  just_queued_turn = true;
  current = current;
  procs = procs;
}

-- The boot path becomes the first thread.
pub schedulify_this_code_path : ℕ → (ℕ → Proc) → PercpuSched
unfolding sched_percpu_area_init
schedulify_this_code_path current procs = record (sched_percpu_area_init current procs) {
  procs = update procs current (record proc_init { state = td_oncpu });
  current_prio = default_prio;
}

pub data EnqueueType : Type 0 where
  enq_normal enq_return : EnqueueType

-- The descriptor of a thread that enters a runqueue at `ticks`.
abbrev pub enqueued : EnqueueType → ℕ → Proc → Proc
enqueued enq_normal ticks p = record p {
  enter_runqueue_ts = ticks;
  state = td_runnable;
  runtime = 0;
}
enqueued enq_return ticks p = record p { enter_runqueue_ts = ticks; state = td_runnable }

abbrev pub link : EnqueueType → ℕ → List ℕ → List ℕ
link enq_normal proc xs = xs ++ proc ∷ []
link enq_return proc xs = proc ∷ xs

-- `__rq_add_proc`: the runqueue and the descriptors afterwards.
pub add_proc : ℕ → (ℕ → Proc) → Runqueue → ℕ → ℕ → EnqueueType → Outcome (Runqueue × (ℕ → Proc))
add_proc ticks procs rq proc prio type = do
  assert (valid_prio prio)
  ok (
    update rq prio (link type proc (rq prio)),
    update procs proc (enqueued type ticks (procs proc)),
  )

pub rq_add_proc : ℕ → (ℕ → Proc) → Runqueue → ℕ → ℕ → Outcome (Runqueue × (ℕ → Proc))
unfolding add_proc
rq_add_proc ticks procs rq proc prio = add_proc ticks procs rq proc prio enq_normal

pub sched_enqueue : PercpuSched → ℕ → PercpuSched
sched_enqueue s proc = record s {
  procs = update s.procs proc (enqueued enq_normal s.sys_ticks (s.procs proc));
  just_queued = s.just_queued ++ proc ∷ [];
}

-- `list_for_each_safe(&PS->just_queued, …)`: each thread moves to the active runqueue.
pub move_just_queued : ℕ → (ℕ → Proc) → Runqueue → List ℕ → Outcome (Runqueue × (ℕ → Proc))
move_just_queued ticks procs rq [] = ok (rq, procs)
move_just_queued ticks procs rq (proc ∷ rest) =
    rq_add_proc ticks procs rq proc default_prio >>= λ (rq', procs').
    move_just_queued ticks procs' rq' rest

-- What an empty active runqueue gives rise to: the swap, and the move of the just queued threads.
pub swap_runqueues : PercpuSched → Outcome PercpuSched
swap_runqueues s =
    if rq_empty s.rq_active
    then (do
      (rq, procs) ← move_just_queued s.sys_ticks s.procs s.rq_expired s.just_queued
      ok (record s { rq_active = rq; rq_expired = s.rq_active; just_queued = []; procs = procs }))
    else ok s

-- Pop the first thread of the list at `prio`.
pub pop_active : PercpuSched → ℕ → List ℕ → Outcome (PercpuSched × Option (ℕ × ℕ))
pop_active s prio [] = panic
pop_active s prio (proc ∷ rest) =
    ok (record s { rq_active = update s.rq_active prio rest }, some (proc, prio))

pub dispatch_active : PercpuSched → Option ℕ → Outcome (PercpuSched × Option (ℕ × ℕ))
dispatch_active s none = ok (s, none)
dispatch_active s (some prio) = do
  assert (valid_prio prio)
  pop_active (record s { just_queued_turn = true }) prio (s.rq_active prio)

-- The second half of the function, once the turn is not the just queued threads'.
pub dispatch_from_runqueues : PercpuSched → Outcome (PercpuSched × Option (ℕ × ℕ))
dispatch_from_runqueues s = do
  s' ← swap_runqueues s
  dispatch_active s' (rq_get_highest_prio s'.rq_active)

pub dispatch_turn : PercpuSched → Bool → List ℕ → Outcome (PercpuSched × Option (ℕ × ℕ))
dispatch_turn s true (proc ∷ rest) =
    ok (record s { just_queued_turn = false; just_queued = rest }, some (proc, default_prio))
dispatch_turn s true [] = dispatch_from_runqueues s
dispatch_turn s false queued = dispatch_from_runqueues s

-- The thread to run and its priority, `none` for `NULL`.
pub dispatch_runnable_proc : PercpuSched → Outcome (PercpuSched × Option (ℕ × ℕ))
dispatch_runnable_proc s = dispatch_turn s s.just_queued_turn s.just_queued

-- The sum of a measure over the lists below priority `n`.
pub rq_sum : (List ℕ → ℕ) → Runqueue → ℕ → ℕ
rq_sum measure rq zero = 0
rq_sum measure rq (suc n) = rq_sum measure rq n + measure (rq n)

-- How often a thread stands in the lists below priority `n`.
abbrev pub rq_count : ℕ → Runqueue → ℕ → ℕ
rq_count p = rq_sum (count p)

-- How often a thread stands in the lists of the core.
pub queued : PercpuSched → ℕ → ℕ
queued s p =
    rq_count p s.rq_active (suc max_prio)
    + rq_count p s.rq_expired (suc max_prio)
    + count p s.just_queued

-- `list_empty(&new_proc->pnode)` holds of a node that stands in no list.
pub preempt : PercpuSched → ℕ → ℕ → Outcome (PercpuSched × ℕ)
preempt s new_proc new_prio = do
  assert (not (new_proc == s.current))
  assert (queued s new_proc == 0)
  assert (is_runnable (s.procs new_proc).state)
  assert (valid_prio new_prio)
  let p = s.procs new_proc
  let waited = (s.sys_ticks + 2 ^ 64 - p.enter_runqueue_ts) % 2 ^ 64
  ok (
    record s {
      current_prio = new_prio;
      procs = update s.procs new_proc (record p {
        state = td_oncpu;
        dispatch_count = (p.dispatch_count + 1) % 2 ^ 32;
        rqwait_overall = (p.rqwait_overall + waited) % 2 ^ 64;
      });
    },
    new_proc,
  )

-- The accounting at the head of `sched_tick`.
pub account_tick : PercpuSched → PercpuSched
account_tick s =
    let p = s.procs s.current in
    record s {
      sys_ticks = (s.sys_ticks + 1) % 2 ^ 64;
      procs = update s.procs s.current (record p {
        runtime = (p.runtime + 1) % 2 ^ 64;
        runtime_overall = (p.runtime_overall + 1) % 2 ^ 64;
        prio_map = update p.prio_map s.current_prio ((p.prio_map s.current_prio + 1) % 2 ^ 64);
      });
    }

abbrev pub count_slice_end : PercpuSched → PercpuSched
count_slice_end s =
    let p = s.procs s.current in
    record s {
      procs =
          update s.procs s.current
            (record p { preempt_slice_end = (p.preempt_slice_end + 1) % 2 ^ 32 });
    }

-- The running thread goes to the expired runqueue, and the dispatched one takes the core.
pub switch_to : PercpuSched → Option (ℕ × ℕ) → Outcome (PercpuSched × ℕ)
switch_to s none = ok (s, s.current)
switch_to s (some (new_proc, new_prio)) = do
  let prio = max 0 (s.current_prio - 1)
  (expired, procs) ← rq_add_proc s.sys_ticks s.procs s.rq_expired s.current prio
  preempt (record s { current_prio = prio; rq_expired = expired; procs = procs }) new_proc new_prio

pub end_slice : PercpuSched → Outcome (PercpuSched × ℕ)
end_slice s = do (s', next) ← dispatch_runnable_proc (count_slice_end s); switch_to s' next

-- A thread of a higher priority: the code panics, since no thread sleeps yet.
pub stay : PercpuSched → Option ℕ → Outcome (PercpuSched × ℕ)
stay s none = ok (s, s.current)
stay s (some new_prio) = if ltb s.current_prio new_prio then panic else ok (s, s.current)

pub sched_tick : PercpuSched → Outcome (PercpuSched × ℕ)
sched_tick s = do
  let t = account_tick s
  assert (is_oncpu (t.procs t.current).state)
  assert (valid_prio t.current_prio)
  if leb rr_interval (t.procs t.current).runtime
      then end_slice t
      else stay t (rq_get_highest_prio t.rq_active)

-- The timer interrupt: the returned thread takes the core.
pub ticks_handler : PercpuSched → Outcome PercpuSched
ticks_handler s = do (s', next) ← sched_tick s; ok (record s' { current = next })
