-- ===== src/Queue.antt =====
-- `class TaskPriorityQueue` (shared_src/thread_pool_priority/TaskPriorityQueue.{h,cpp}) and the data of
-- `TaskPriorityBase` that it reads: the queue of one worker thread. Orders wait in five queues, those
-- of one key, a security and a side, sorted by price and time. `AddTask`, `GetTask` and
-- `DeleteIfHaveTask` run under the queue's mutex, so each is one step.
-- A key, an `int`, is held as its distance from the least `int`, which keeps the order of the maps.
-- Of the `QueueTask::TaskPriority` values `other` stands for those outside the enumeration.
pub mod Place
pub mod Tasks
pub mod Weigh
pub mod Cut
pub mod Total
pub mod Order
pub mod Balance
pub mod Accept
pub mod Priority
pub mod Sorted
pub mod Steps
mod Examples
use simutgw_src.Common.{
  ℕ, String, Bool, true, false, Option, none, some, List, [], ◌∷◌, ◌^◌, ◌-◌, ltb, ◌==◌,
  if◌then◌else◌,
}

pub data TaskPriority : Type 0 where
  standby_order check_order match_order cancel_order : TaskPriority
  other : ℕ → TaskPriority

pub record Task : Type 0 where
  pub id : ℕ
  pub key : ℕ
  pub order_time : ℕ
  pub price : ℕ
  pub clordid : String
  pub side : String
  pub priority : TaskPriority

-- `std::map<int, T>`, in the order of the keys.
abbrev pub Map : Type 0 → Type 0
Map V = List (ℕ × V)

module _ {V : Type 0} where
  abbrev pub find : ℕ → Map V → Option V
  find k [] = none
  find k ((j, v) ∷ m) = if k == j then some v else find k m

  -- `insert` of a key that is not there.
  abbrev pub insert : ℕ → V → Map V → Map V
  insert k v [] = (k, v) ∷ []
  insert k v ((j, w) ∷ m) = if ltb k j then (k, v) ∷ (j, w) ∷ m else (j, w) ∷ insert k v m

  -- A change of the value of a key, through an iterator.
  abbrev pub update : ℕ → V → Map V → Map V
  update k v [] = []
  update k v ((j, w) ∷ m) = if k == j then (k, v) ∷ m else (j, w) ∷ update k v m

pub record TaskPriorityQueue : Type 0 where
  pub task_nums : ℕ
  pub p1_que : List Task
  pub p2_que : List Task
  pub p3_order_que : Map (List Task)
  pub p3_unorder_que : List Task
  pub p4_que : List Task
  pub p3_order_que_un_match : Map Bool

abbrev pub max_queue_size : ℕ
max_queue_size = 2 ^ 64 - 1 - 10

-- A queue as it is constructed.
abbrev pub empty : TaskPriorityQueue
empty = record {
  task_nums = 0;
  p1_que = [];
  p2_que = [];
  p3_order_que = [];
  p3_unorder_que = [];
  p4_que = [];
  p3_order_que_un_match = [];
}
