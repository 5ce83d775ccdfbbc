-- ===== src/Queue/Examples.antt =====
-- Tests of `TaskPriorityQueue`, and instances of its theorems.
use simutgw_src.Common.{ℕ, ◌≡◌, refl, true, some, List, [], ◌∷◌, arith}
use simutgw_src.Queue.{Task, TaskPriorityQueue, check_order, match_order, cancel_order, empty}
use simutgw_src.Queue.Place.{binary_insert_inc, deque_insert}
use simutgw_src.Queue.Order.{AscendingInTime, Inserted, ascending, binary_insert-ByTime}
use simutgw_src.Queue.Steps.{Call, adds, gets, deletes, run, Sorts, run-Sorts}
use simutgw_src.Queue.Total.{InsertedAt, deque_insert-InsertedAt}
use simutgw_src.Queue.Balance.{IsCounted, Gives, get_task-Gives, delete_if_have_task-Gives}
use simutgw_src.Queue.Accept.{Outcome, add_task-Outcome}
use simutgw_src.Queue.Priority.{waiting, Pops, get_task-Pops}
use simutgw_src.Queue.Tasks.{add_task, get_task, delete_if_have_task}

abbrev sale : ℕ → ℕ → Task
sale price time = record {
  id = 1;
  key = 2;
  order_time = time;
  price = price;
  clordid = "A1";
  side = "S";
  priority = match_order;
}

abbrev book : List Task
book = sale 10 1 ∷ sale 12 2 ∷ sale 12 3 ∷ sale 15 1 ∷ []

insert_12 :
    deque_insert (sale 12 4) book
    ≡ some (sale 10 1 ∷ sale 12 2 ∷ sale 12 3 ∷ sale 12 4 ∷ sale 15 1 ∷ [])
unfolding deque_insert
insert_12 = refl

abbrev cancel : Task
cancel = record (sale 0 9) { priority = cancel_order; clordid = "C7" }

abbrev busy : TaskPriorityQueue
busy = record empty {
  task_nums = 6;
  p3_order_que = (2, book) ∷ [];
  p4_que = cancel ∷ [];
  p2_que = record (sale 3 3) { priority = check_order } ∷ [];
}

get_busy : (get_task busy).1 ≡ some cancel
unfolding get_task
get_busy = refl

delete_busy : (delete_if_have_task 2 "A1" busy).1 ≡ some (sale 10 1)
unfolding delete_if_have_task
delete_busy = refl

busy-IsCounted : IsCounted busy
busy-IsCounted = omega arith

binary_insert-ByTime_example :
    Inserted AscendingInTime (sale 12 4) book (binary_insert_inc (sale 12 4) book)
binary_insert-ByTime_example =
    binary_insert-ByTime ascending (sale 12 4) book (omega arith) (ground arith)

deque_insert-InsertedAt_example : InsertedAt (sale 11 5) book (deque_insert (sale 11 5) book)
deque_insert-InsertedAt_example = deque_insert-InsertedAt (sale 11 5) book

get_task-Gives_example : Gives busy (get_task busy)
get_task-Gives_example = get_task-Gives busy busy-IsCounted

delete_if_have_task-Gives_example : Gives busy (delete_if_have_task 2 "A1" busy)
delete_if_have_task-Gives_example = delete_if_have_task-Gives 2 "A1" busy busy-IsCounted

add_task-Outcome_example : Outcome (some (sale 12 4)) busy (add_task (some (sale 12 4)) true busy)
add_task-Outcome_example = add_task-Outcome (some (sale 12 4)) true busy busy-IsCounted

get_task-Pops_example : Pops (waiting busy) (get_task busy)
get_task-Pops_example = get_task-Pops busy refl

abbrev calls : List Call
calls = adds (sale 11 5) true ∷ gets ∷ deletes 2 "A1" ∷ []

run-Sorts_example : Sorts (λ key. ascending) (run calls busy)
run-Sorts_example = run-Sorts (λ key. ascending) busy calls (refl, tt) (omega arith, tt)
