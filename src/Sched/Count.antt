-- ===== src/Sched/Count.antt =====
-- How often a thread stands in the lists of a runqueue of kern/sched.c.
use cute.Base.{
  update, lt-suc_cases, update_same, update_ne, ℕ, zero, suc, ◌+◌, ◌≤◌, ◌<◌, ◌≡◌, ◌≢◌, refl, ap,
  subst, inl, inr, true, false, not, Option, none, some, List, [], ◌∷◌, arith, Bool-cases, ◌==◌,
}
use cute.Sched.{Runqueue, list_empty, highest_below, rq_get_highest_prio, rq_sum, max_prio}

pub rq_sum-ext :
    (w : List ℕ → ℕ) (f g : Runqueue) (n : ℕ)
    → ((i : ℕ) → i < n → f i ≡ g i)
    → rq_sum w f n ≡ rq_sum w g n
unfolding rq_sum
rq_sum-ext w f g zero same = refl
rq_sum-ext w f g (suc n) same =
    omega (arith, rq_sum-ext w f g n (λ i h. same i (omega arith)), ap w (same n (omega arith)))

pub rq_sum-empty :
    (w : List ℕ → ℕ) (base : w [] ≡ 0) (f : Runqueue) (n : ℕ)
    → ((i : ℕ) → i < n → f i ≡ [])
    → rq_sum w f n ≡ 0
unfolding rq_sum
rq_sum-empty w base f zero none_there = refl
rq_sum-empty w base f (suc n) none_there = omega (
  arith,
  rq_sum-empty w base f n (λ i h. none_there i (omega arith)),
  ap w (none_there n (omega arith)),
  base,
)

rq_sum-update_last :
    (w : List ℕ → ℕ) (f : Runqueue) (n : ℕ) (l : List ℕ)
    → rq_sum w (update f n l) (suc n) + w (f n) ≡ rq_sum w f (suc n) + w l
unfolding rq_sum
rq_sum-update_last w f n l =
    let below = rq_sum-ext w (update f n l) f n (λ j k. update_ne f n j l (omega arith)) in
    let here = ap w (update_same f n l) in omega (arith, below, here)

-- A list that changes changes the count by what it gains and loses.
pub rq_sum-update :
    (w : List ℕ → ℕ) (f : Runqueue) (i : ℕ) (l : List ℕ) (n : ℕ)
    → i < n
    → rq_sum w (update f i l) n + w (f i) ≡ rq_sum w f n + w l
unfolding rq_sum
rq_sum-update w f i l zero h = absurd (omega arith)
rq_sum-update w f i l (suc n) h = elim (Bool-cases (n == i)) [
  | inl e ↦
      let eq : n ≡ i = ground arith in
      subst (λ k. rq_sum w (update f k l) (suc n) + w (f k) ≡ rq_sum w f (suc n) + w l) eq
        (rq_sum-update_last w f n l)
  | inr e ↦
      let ne : n ≢ i = ground arith in
      let here = ap w (update_ne f i n l ne) in
      omega (arith, rq_sum-update w f i l n (omega arith), here)
]

-- A thread in a list below `n` is counted.
pub le-rq_sum : (w : List ℕ → ℕ) (f : Runqueue) (i n : ℕ) → i < n → w (f i) ≤ rq_sum w f n
unfolding rq_sum
le-rq_sum w f i zero h = absurd (omega arith)
le-rq_sum w f i (suc n) h = elim (lt-suc_cases h) [
  | inl e ↦ rw e (omega arith)
  | inr l ↦ omega (arith, le-rq_sum w f i n l)
]

-- What the loop over the priorities finds: the highest with a thread.
abbrev pub IsHighest : Runqueue → ℕ → Option ℕ → Type 0
IsHighest rq n none = (i : ℕ) → i < n → rq i ≡ []
IsHighest rq n (some h) = (h < n) × (rq h ≢ []) × ((i : ℕ) → h < i → i < n → rq i ≡ [])

list_empty→eq : (xs : List ℕ) → not (list_empty xs) ≡ false → xs ≡ []
list_empty→eq [] h = refl
list_empty→eq (x ∷ xs) h = absurd (cc)

list_empty→ne : (xs : List ℕ) → not (list_empty xs) ≡ true → xs ≢ []
list_empty→ne [] h e = cc
list_empty→ne (x ∷ xs) h e = cc

IsHighest-suc :
    (rq : Runqueue) (n : ℕ) (o : Option ℕ) → rq n ≡ [] → IsHighest rq n o → IsHighest rq (suc n) o
IsHighest-suc rq n none e h = λ i l. elim (lt-suc_cases l) [ inl d ↦ rw d e | inr b ↦ h i b ]
IsHighest-suc rq n (some k) e (a, b, c) =
    (omega arith, b, λ i g l. elim (lt-suc_cases l) [ inl d ↦ rw d e | inr d ↦ c i g d ])

highest_below-IsHighest : (rq : Runqueue) (n : ℕ) → IsHighest rq n (highest_below rq n)
unfolding highest_below
highest_below-IsHighest rq zero = λ i l. absurd (omega arith)
highest_below-IsHighest rq (suc n) = elim (Bool-cases (not (list_empty (rq n)))) [
  | inl some_there ↦
      rw some_there (omega arith, list_empty→ne (rq n) some_there, λ i g l. absurd (omega arith))
  | inr empty ↦ rw empty (
      IsHighest-suc rq n (highest_below rq n) (list_empty→eq (rq n) empty)
        (highest_below-IsHighest rq n))
]

-- `rq_get_highest_prio` returns the highest priority at which a thread stands in the runqueue, and
-- `UNDEF_PRIO` exactly when the runqueue has no thread.
pub rq_get_highest_prio-IsHighest :
    (rq : Runqueue) → IsHighest rq (suc max_prio) (rq_get_highest_prio rq)
unfolding rq_get_highest_prio
rq_get_highest_prio-IsHighest rq = highest_below-IsHighest rq (suc max_prio)
