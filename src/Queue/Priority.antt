-- ===== src/Queue/Priority.antt =====
-- The order in which `GetTask` serves the queues: as one list.
use simutgw_src.Common.{
  ℕ, ◌≡◌, refl, sym, subst, Bool, Option, none, some, List, [], ◌∷◌, ◌++◌, arith,
}
use simutgw_src.Queue.{Task, Map, TaskPriorityQueue}
use simutgw_src.Queue.Tasks.{
  GetCode, got, no_task, first_ordered, take_urgent, take_idle, count_down, otherwise_idle, give,
  get_task,
}

-- The sorted deques one after the other, in the order of their keys.
abbrev pub deques : Map (List Task) → List Task
deques [] = []
deques ((k, d) ∷ m) = d ++ deques m

-- All that waits, in the order of service: cancellations, orders without a place by price, sorted
-- orders, orders to be checked, standing orders.
abbrev pub waiting : TaskPriorityQueue → List Task
waiting q = q.p4_que ++ (q.p3_unorder_que ++ (deques q.p3_order_que ++ (q.p2_que ++ q.p1_que)))

-- A call takes the head of a list that waits, and only that; or finds the list empty.
abbrev pub Pops : List Task → GetCode × Option Task × TaskPriorityQueue → Type 0
Pops [] (no_task, none, q') = waiting q' ≡ []
Pops [] (no_task, some u, q') = ⊥
Pops [] (got, u, q') = ⊥
Pops (t ∷ ts) (got, some u, q') = (u ≡ t) × (waiting q' ≡ ts)
Pops (t ∷ ts) (got, none, q') = ⊥
Pops (t ∷ ts) (no_task, u, q') = ⊥

-- The search of the sorted deques, when no key is hanged.
abbrev Heads : Map (List Task) → Option (Task × Map (List Task)) → Type 0
Heads m none = deques m ≡ []
Heads m (some (t, m')) = deques m ≡ t ∷ deques m'

first_ordered-Heads : (m : Map (List Task)) → Heads m (first_ordered [] m)
unfolding first_ordered
first_ordered-Heads [] = refl
first_ordered-Heads ((k, t ∷ d) ∷ m) = refl
first_ordered-Heads ((k, []) ∷ m) = skip (first_ordered [] m) (first_ordered-Heads m)
  where
    skip :
        (r : Option (Task × Map (List Task)))
        → Heads m r
        → Heads ((k, []) ∷ m) (elim r [ none ↦ none | some (t, m') ↦ some (t, (k, []) ∷ m') ])
    skip none h = h
    skip (some (t, m')) h = h

give-Pops :
    (t : Task) (ts : List Task) (q : TaskPriorityQueue)
    → waiting q ≡ ts
    → Pops (t ∷ ts) (give (some t, q))
unfolding give count_down
give-Pops t ts q e = ground arith

-- A queue by its parts.
abbrev queue_of :
    ℕ
    → List Task
    → List Task
    → Map (List Task)
    → List Task
    → List Task
    → Map Bool
    → TaskPriorityQueue
queue_of n p4 p3 m p2 p1 hanged = record {
  task_nums = n;
  p1_que = p1;
  p2_que = p2;
  p3_order_que = m;
  p3_unorder_que = p3;
  p4_que = p4;
  p3_order_que_un_match = hanged;
}

idle-Pops :
    (n : ℕ) (m : Map (List Task)) (p2 p1 : List Task)
    → deques m ≡ []
    → Pops (deques m ++ (p2 ++ p1)) (give (take_idle (queue_of n [] [] m p2 p1 [])))
unfolding take_idle give
idle-Pops n m [] [] h = rw h (rw h)
idle-Pops n m [] (t ∷ p1) h = rw h (give-Pops t p1 (queue_of n [] [] m [] p1 []) (rw h))
idle-Pops n m (t ∷ p2) p1 h = rw h (give-Pops t (p2 ++ p1) (queue_of n [] [] m p2 p1 []) (rw h))

urgent-Pops :
    (n : ℕ) (p4 p3 : List Task) (m : Map (List Task)) (p2 p1 : List Task)
    → let q = queue_of n p4 p3 m p2 p1 [] in Pops (waiting q) (get_task q)
unfolding get_task otherwise_idle take_urgent
urgent-Pops n (t ∷ p4) p3 m p2 p1 = give-Pops t _ (queue_of n p4 p3 m p2 p1 []) refl
urgent-Pops n [] (t ∷ p3) m p2 p1 = give-Pops t _ (queue_of n [] p3 m p2 p1 []) refl
urgent-Pops n [] [] [] p2 p1 = idle-Pops n [] p2 p1 refl
urgent-Pops n [] [] (e ∷ m) p2 p1 = go (first_ordered [] (e ∷ m)) refl (first_ordered-Heads (e ∷ m))
  where
    go :
        (r : Option (Task × Map (List Task)))
        → first_ordered [] (e ∷ m) ≡ r
        → Heads (e ∷ m) r
        → let q = queue_of n [] [] (e ∷ m) p2 p1 [] in Pops (waiting q) (get_task q)
    go none eq h = rw (eq, take_urgent) (idle-Pops n (e ∷ m) p2 p1 h)
    go (some (t, m')) eq h =
        rw (eq, take_urgent) (rw h (give-Pops t _ (queue_of n [] [] m' p2 p1 []) refl))

-- When no key is hanged, `GetTask` serves what waits as one list, cancellations first, then orders
-- without a place by price, the sorted deques by key, orders to be checked and standing orders: it
-- returns 0 with the head of that list, leaving the tail to wait, and 1 exactly when the list is empty.
pub get_task-Pops :
    (q : TaskPriorityQueue) → q.p3_order_que_un_match ≡ [] → Pops (waiting q) (get_task q)
get_task-Pops q h =
    subst
      (λ hanged.
        let r =
          queue_of q.task_nums q.p4_que q.p3_unorder_que q.p3_order_que q.p2_que q.p1_que hanged in
        Pops (waiting r) (get_task r))
      (sym h) (urgent-Pops q.task_nums q.p4_que q.p3_unorder_que q.p3_order_que q.p2_que q.p1_que)
