-- ===== src/Queue/Accept.antt =====
-- What `AddTask` does on each of its ways out.
use simutgw_src.Common.{
  ℕ, ◌+◌, ◌≤◌, ◌<◌, ◌≡◌, refl, ◌⊎◌, inl, inr, Bool, true, false, Option, none, some, List, [], ◌∷◌,
  leb, arith, Option-cases, Bool-cases, add64, u64_mod, leb→le,
}
use simutgw_src.Queue.{
  Task, TaskPriority, standby_order, check_order, match_order, cancel_order, other, find, insert,
  update, TaskPriorityQueue, max_queue_size,
}
use simutgw_src.Queue.Place.{insert_at, push_back}
use simutgw_src.Queue.Total.{deque_insert-InsertedAt}
use simutgw_src.Queue.Weigh.{
  Weight, weigh, weigh_queue, weigh-append, weigh-insert_at, weigh_map-update, weigh_map-insert,
}
use simutgw_src.Queue.Balance.{IsCounted}
use simutgw_src.Queue.Tasks.{AddCode, added, full, failed, add_ordered, dispatch, add_task}

-- The queue with one more task, its count not yet raised.
pub record Gained (t : Task) (q q' : TaskPriorityQueue) : Type 0 where
  pub same_tasks : (f : Weight) → weigh_queue f q' ≡ f t + weigh_queue f q
  pub same_count : q'.task_nums ≡ q.task_nums

add_ordered-Gained :
    (t : Task) (q : TaskPriorityQueue)
    → (q' : TaskPriorityQueue) × (add_ordered t q ≡ some q') × Gained t q q'
unfolding add_ordered
add_ordered-Gained t q = elim (Option-cases (find t.key q.p3_order_que)) [
  | inl n ↦
      rw (n, add_ordered)
        (
          record q { p3_order_que = insert t.key (push_back t []) q.p3_order_que },
          refl,
          record {
            same_tasks =
                λ f. omega (arith, weigh_map-insert f t.key (push_back t []) q.p3_order_que);
            same_count = refl;
          },
        )
  | inr (d, e) ↦
      let (j, le, done) = deque_insert-InsertedAt t d in
      rw (e, add_ordered)
        (rw (done, add_ordered)
          (
            record q { p3_order_que = update t.key (insert_at j t d) q.p3_order_que },
            refl,
            record {
              same_tasks = λ f. omega (
                arith,
                weigh_map-update f t.key d (insert_at j t d) q.p3_order_que e,
                weigh-insert_at f j t d,
              );
              same_count = refl;
            },
          ))
]

-- The outcome of `dispatch`: it never faults, refuses the priorities that are none, and adds else.
abbrev Dispatched :
    TaskPriority → Task → TaskPriorityQueue → Option (Option TaskPriorityQueue) → Type 0
Dispatched (other n) t q r = r ≡ some none
Dispatched standby_order t q r = (q' : TaskPriorityQueue) × (r ≡ some (some q')) × Gained t q q'
Dispatched check_order t q r = (q' : TaskPriorityQueue) × (r ≡ some (some q')) × Gained t q q'
Dispatched match_order t q r = (q' : TaskPriorityQueue) × (r ≡ some (some q')) × Gained t q q'
Dispatched cancel_order t q r = (q' : TaskPriorityQueue) × (r ≡ some (some q')) × Gained t q q'

ordered-Dispatched :
    (t : Task) (q : TaskPriorityQueue)
    → (q' : TaskPriorityQueue) × ((let r : Option (Option TaskPriorityQueue) =
            elim (add_ordered t q) [ none ↦ none | some p ↦ some (some p) ] in
          r)
        ≡ some (some q'))
      × Gained t q q'
ordered-Dispatched t q = let (q', e, g) = add_ordered-Gained t q in (q', rw e, g)

push_back-weigh :
    (f : Weight) (t : Task) (l : List Task) → weigh f (push_back t l) ≡ f t + weigh f l
push_back-weigh f t l = omega (arith, weigh-append f l (t ∷ []))

dispatch-Dispatched :
    (p : TaskPriority) (t : Task) (ordered : Bool) (q : TaskPriorityQueue)
    → Dispatched p t q (dispatch p t ordered q)
unfolding dispatch
dispatch-Dispatched standby_order t true q = ordered-Dispatched t q
dispatch-Dispatched standby_order t false q = (
  _,
  refl,
  record { same_tasks = λ f. omega (arith, push_back-weigh f t q.p1_que); same_count = refl },
)
dispatch-Dispatched check_order t b q = (
  _,
  refl,
  record { same_tasks = λ f. omega (arith, push_back-weigh f t q.p2_que); same_count = refl },
)
dispatch-Dispatched match_order t true q = ordered-Dispatched t q
dispatch-Dispatched match_order t false q = (
  _,
  refl,
  record {
    same_tasks = λ f. omega (arith, push_back-weigh f t q.p3_unorder_que);
    same_count = refl;
  },
)
dispatch-Dispatched cancel_order t b q = (
  _,
  refl,
  record { same_tasks = λ f. omega (arith, push_back-weigh f t q.p4_que); same_count = refl },
)
dispatch-Dispatched (other n) t b q = refl

-- A priority of the enumeration.
abbrev pub IsKnown : TaskPriority → Type 0
IsKnown (other n) = ⊥
IsKnown standby_order = Unit {0}
IsKnown check_order = Unit {0}
IsKnown match_order = Unit {0}
IsKnown cancel_order = Unit {0}

pub record Added (task : Option Task) (q q' : TaskPriorityQueue) (n : ℕ) : Type 0 where
  pub new : Task
  pub is_new : task ≡ some new
  pub known : IsKnown new.priority
  pub same_tasks : (f : Weight) → weigh_queue f q' ≡ f new + weigh_queue f q
  pub count : n ≡ q.task_nums + 1
  pub reported : q'.task_nums ≡ n
  pub counted : IsCounted q'

-- What each way out of `AddTask` promises. A fault is none of them.
abbrev pub Outcome :
    Option Task → TaskPriorityQueue → Option (AddCode × Option ℕ × TaskPriorityQueue) → Type 0
Outcome task q none = ⊥
Outcome task q (some (added, some n, q')) = Added task q q' n
Outcome task q (some (added, none, q')) = ⊥
Outcome task q (some (full, n, q')) =
    (max_queue_size ≤ q.task_nums) × (n ≡ some q.task_nums) × (q' ≡ q)
Outcome task q (some (failed, n, q')) =
    (q.task_nums < max_queue_size)
    × ((task ≡ none) ⊎ ((t : Task) × (task ≡ some t) × ¬ IsKnown t.priority))
    × (n ≡ none)
    × (q' ≡ q)

counted_up :
    (t : Task) (q q' : TaskPriorityQueue)
    → IsKnown t.priority
    → IsCounted q
    → q.task_nums < max_queue_size
    → Gained t q q'
    → let n = add64 q'.task_nums 1 in Added (some t) q (record q' { task_nums = n }) n
counted_up t q q' k c lt g =
    let small : q.task_nums + 1 < u64_mod = omega arith in
    let up : add64 q'.task_nums 1 ≡ q.task_nums + 1 = omega (arith, g.same_count) in
    record {
      new = t;
      is_new = refl;
      known = k;
      same_tasks = g.same_tasks;
      count = up;
      reported = refl;
      counted = record {
        count = omega (arith, up, c.count, g.same_tasks (λ _. 1));
        bounded = omega (arith, up);
      };
    }

module _ (t : Task) (ordered : Bool) (q : TaskPriorityQueue) (c : IsCounted q)
    (lt : q.task_nums < max_queue_size) where
  not_full : leb max_queue_size q.task_nums ≡ false
  not_full = ground arith

  known-Outcome :
      (r : (q' : TaskPriorityQueue) × (dispatch t.priority t ordered q ≡ some (some q'))
        × Gained t q q')
      → IsKnown t.priority
      → Outcome (some t) q (add_task (some t) ordered q)
  unfolding add_task
  known-Outcome (q', e, g) k =
      rw (not_full, add_task) (rw (e, add_task) (counted_up t q q' k c lt g))

  by_priority :
      (p : TaskPriority)
      → t.priority ≡ p
      → Dispatched p t q (dispatch t.priority t ordered q)
      → Outcome (some t) q (add_task (some t) ordered q)
  unfolding add_task
  by_priority standby_order e d = known-Outcome d (rw e tt)
  by_priority check_order e d = known-Outcome d (rw e tt)
  by_priority match_order e d = known-Outcome d (rw e tt)
  by_priority cancel_order e d = known-Outcome d (rw e tt)
  by_priority (other n) e d =
      rw (not_full, add_task) (rw (d, add_task) (lt, inr (t, refl, rw e (λ h. h)), refl, refl))

-- `AddTask` on a queue whose count is right never faults. It returns 0 for a task of a known
-- priority, and then exactly that task has come to those that wait, and the count, which it reports,
-- has grown by one and is right. It returns 2 only when the count has reached the limit, and -1 only
-- for a null pointer or an unknown priority, both with the queue as it was.
pub add_task-Outcome :
    (task : Option Task) (ordered : Bool) (q : TaskPriorityQueue)
    → IsCounted q
    → Outcome task q (add_task task ordered q)
unfolding add_task
add_task-Outcome task ordered q c = elim (Bool-cases (leb max_queue_size q.task_nums)) [
  | inl is_full ↦ rw (is_full, add_task) (leb→le _ _ is_full, refl, refl)
  | inr room ↦ with_room task (ground arith)
]
  where
    with_room :
        (p : Option Task) → q.task_nums < max_queue_size → Outcome p q (add_task p ordered q)
    with_room none lt =
        let f : leb max_queue_size q.task_nums ≡ false = ground arith in
        rw (f, add_task) (lt, inl refl, refl, refl)
    with_room (some t) lt =
        by_priority t ordered q c lt t.priority refl (dispatch-Dispatched t.priority t ordered q)
