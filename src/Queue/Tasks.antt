-- ===== src/Queue/Tasks.antt =====
-- `AddTask`, `GetTask` and `DeleteIfHaveTask`. `none` stands for a fault in the binary insertion.
use simutgw_src.Common.{
  String, ℕ, Bool, true, false, Option, none, some, List, [], ◌∷◌, leb, ◌==◌, if◌then◌else◌, add64,
  sub64, str_eq,
}
use simutgw_src.Queue.{
  TaskPriority, standby_order, check_order, match_order, cancel_order, other, Task, Map, find,
  insert, update, TaskPriorityQueue, max_queue_size,
}
use simutgw_src.Queue.Place.{push_back, deque_insert}

-- What `AddTask` returns: 0, 2 and -1.
pub data AddCode : Type 0 where
  added full failed : AddCode

-- A task for the sorted queues: alone in a new deque, or in its place in the deque of its key.
unfoldable pub add_ordered : Task → TaskPriorityQueue → Option TaskPriorityQueue
add_ordered t q = elim (find t.key q.p3_order_que) [
  | none ↦ some (record q { p3_order_que = insert t.key (push_back t []) q.p3_order_que })
  | some deque ↦ elim (deque_insert t deque) [
    | none ↦ none
    | some deque' ↦ some (record q { p3_order_que = update t.key deque' q.p3_order_que })
  ]
]

-- The `switch` on the priority: the queue with the task, or `some none` for a priority that is none.
unfoldable pub dispatch :
    TaskPriority → Task → Bool → TaskPriorityQueue → Option (Option TaskPriorityQueue)
unfolding add_ordered
dispatch standby_order t true q = elim (add_ordered t q) [ none ↦ none | some q' ↦ some (some q') ]
dispatch standby_order t false q = some (some (record q { p1_que = push_back t q.p1_que }))
dispatch check_order t _ q = some (some (record q { p2_que = push_back t q.p2_que }))
dispatch match_order t true q = elim (add_ordered t q) [ none ↦ none | some q' ↦ some (some q') ]
dispatch match_order t false q =
    some (some (record q { p3_unorder_que = push_back t q.p3_unorder_que }))
dispatch cancel_order t _ q = some (some (record q { p4_que = push_back t q.p4_que }))
dispatch (other n) t _ q = some none

-- The code, `out_CurrentTaskNum` where it is written, and the new queue. The task is a pointer.
unfoldable pub add_task :
    Option Task → Bool → TaskPriorityQueue → Option (AddCode × Option ℕ × TaskPriorityQueue)
unfolding dispatch
add_task task ordered q =
    if leb max_queue_size q.task_nums then some (full, some q.task_nums, q) else elim task [
      | none ↦ some (failed, none, q)
      | some t ↦ elim (dispatch t.priority t ordered q) [
        | none ↦ none
        | some none ↦ some (failed, none, q)
        | some (some q') ↦
            let n = add64 q'.task_nums 1 in some (added, some n, record q' { task_nums = n })
      ]
    ]

-- What `GetTask` and `DeleteIfHaveTask` return: 0 and 1.
pub data GetCode : Type 0 where
  got no_task : GetCode

-- The `for` loop over the sorted queues: the first task whose key is not among the hanged ones.
-- `none` when the loop runs to the end.
unfoldable pub first_ordered : Map Bool → Map (List Task) → Option (Task × Map (List Task))
first_ordered hanged [] = none
first_ordered hanged ((k, deque) ∷ m) =
    let rest : Option (Task × Map (List Task)) = elim (first_ordered hanged m) [
      | none ↦ none
      | some (t, m') ↦ some (t, (k, deque) ∷ m')
    ] in
    elim (find k hanged) [
      | some _ ↦ rest
      | none ↦ elim deque [ [] ↦ rest | t ∷ deque' ↦ some (t, (k, deque') ∷ m) ]
    ]

-- The first part of `GetTask`: cancellations, then orders without and with a place by price.
unfoldable pub take_urgent : TaskPriorityQueue → Option Task × TaskPriorityQueue
unfolding first_ordered
take_urgent q = elim q.p4_que [
  | t ∷ p4 ↦ (some t, record q { p4_que = p4 })
  | [] ↦ elim q.p3_unorder_que [
    | t ∷ p3 ↦ (some t, record q { p3_unorder_que = p3 })
    | [] ↦ elim q.p3_order_que [
      | [] ↦ (none, q)
      | _ ∷ _ ↦ elim (first_ordered q.p3_order_que_un_match q.p3_order_que) [
        | none ↦ (none, record q { p3_order_que_un_match = [] })
        | some (t, m) ↦ (some t, record q { p3_order_que = m })
      ]
    ]
  ]
]

-- The second part, when the first has found nothing: orders to be checked, then standing orders.
unfoldable pub take_idle : TaskPriorityQueue → Option Task × TaskPriorityQueue
take_idle q = elim q.p2_que [
  | t ∷ p2 ↦ (some t, record q { p2_que = p2 })
  | [] ↦ elim q.p1_que [ t ∷ p1 ↦ (some t, record q { p1_que = p1 }) | [] ↦ (none, q) ]
]

-- `--m_uiTaskNums`, but for a count of 0, which is logged.
unfoldable pub count_down : TaskPriorityQueue → TaskPriorityQueue
count_down q = if q.task_nums == 0 then q else record q { task_nums = sub64 q.task_nums 1 }

-- `if (nullptr == out_ptrTask)` after the first part.
unfoldable pub otherwise_idle : Option Task × TaskPriorityQueue → Option Task × TaskPriorityQueue
unfolding take_idle
otherwise_idle (some t, q) = (some t, q)
otherwise_idle (none, q) = take_idle q

-- The code, `out_ptrTask` and the new queue, by what was found.
unfoldable pub give : Option Task × TaskPriorityQueue → GetCode × Option Task × TaskPriorityQueue
unfolding count_down
give (some t, q) = (got, some t, count_down q)
give (none, q) = (no_task, none, q)

unfoldable pub get_task : TaskPriorityQueue → GetCode × Option Task × TaskPriorityQueue
unfolding take_urgent otherwise_idle give
get_task q = give (otherwise_idle (take_urgent q))

-- `DeleteOrderByClordId`: the first task of the order, and the container without it.
unfoldable pub delete_order : String → List Task → Option (Task × List Task)
delete_order clordid [] = none
delete_order clordid (t ∷ ts) =
    if str_eq t.clordid clordid
    then some (t, ts)
    else elim (delete_order clordid ts) [ none ↦ none | some (u, ts') ↦ some (u, t ∷ ts') ]

-- What was found in a container, with the container put back.
abbrev pub put_back :
    (List Task → TaskPriorityQueue) → Option (Task × List Task) → Option (Task × TaskPriorityQueue)
put_back put none = none
put_back put (some (t, l)) = some (t, put l)

-- `if (!bHave && …)`: the next search only if nothing was found.
abbrev pub or_else :
    Option (Task × TaskPriorityQueue)
    → Option (Task × TaskPriorityQueue)
    → Option (Task × TaskPriorityQueue)
or_else none next = next
or_else (some r) next = some r

-- The search of the deque of a key.
unfoldable pub delete_ordered : ℕ → String → TaskPriorityQueue → Option (Task × TaskPriorityQueue)
unfolding delete_order
delete_ordered key clordid q = elim (find key q.p3_order_que) [
  | none ↦ none
  | some deque ↦
      put_back (λ l. record q { p3_order_que = update key l q.p3_order_que })
        (delete_order clordid deque)
]

-- The searches of `DeleteIfHaveTask` in turn. The cancellations are not searched.
unfoldable pub delete_from : ℕ → String → TaskPriorityQueue → Option (Task × TaskPriorityQueue)
unfolding delete_ordered delete_order
delete_from key clordid q = or_else (delete_ordered key clordid q) (
    or_else
      (put_back (λ l. record q { p3_unorder_que = l }) (delete_order clordid q.p3_unorder_que))
      (or_else (put_back (λ l. record q { p2_que = l }) (delete_order clordid q.p2_que))
        (put_back (λ l. record q { p1_que = l }) (delete_order clordid q.p1_que))))

-- The code, `out_ptrTask` where it is written, and the new queue.
unfoldable pub delete_if_have_task :
    ℕ → String → TaskPriorityQueue → GetCode × Option Task × TaskPriorityQueue
unfolding delete_from
delete_if_have_task key clordid q = elim (delete_from key clordid q) [
  | none ↦ (no_task, none, q)
  | some (t, q') ↦ (got, some t, record q' { task_nums = sub64 q'.task_nums 1 })
]
