-- ===== src/Queue/Steps.antt =====
-- The sorted deques over any sequence of calls.
use simutgw_src.Common.{
  ℕ, String, ◌≡◌, refl, sym, ap, ◌∙◌, subst, inl, inr, Bool, true, false, Option, none, some, List,
  [], ◌∷◌, arith, Option-cases, some-inj,
}
use simutgw_src.Queue.{
  TaskPriority, standby_order, check_order, match_order, cancel_order, other, Task, find, update,
  TaskPriorityQueue,
}
use simutgw_src.Queue.Order.{Sorting, ByPrice}
use simutgw_src.Queue.Tasks.{
  AddCode, first_ordered, take_urgent, otherwise_idle, give, add_ordered, dispatch, add_task,
  get_task, delete_order, delete_ordered, delete_from, delete_if_have_task,
}
use simutgw_src.Queue.Sorted.{
  sorting_of, IsSorted, add_ordered-IsSorted, delete_order-IsOrdered, find-IsOrdered,
  update-IsSorted, first_ordered-IsSorted,
}

-- The deques of a queue are sorted.
abbrev pub Sorts : (ℕ → Sorting) → TaskPriorityQueue → Type 0
Sorts s q = IsSorted s q.p3_order_que

take_urgent-Sorts :
    (s : ℕ → Sorting) (q : TaskPriorityQueue) → Sorts s q → Sorts s (take_urgent q).1
unfolding take_urgent
take_urgent-Sorts s q o =
    elim (Option-cases (first_ordered q.p3_order_que_un_match q.p3_order_que)) [
      | inl n ↦ ground arith
      | inr (r, e) ↦ ground (
        arith,
        first_ordered-IsSorted s q.p3_order_que_un_match q.p3_order_que {t = r.0} {m' = r.1} o e,
      )
    ]

give-Sorts :
    (s : ℕ → Sorting) (r : Option Task × TaskPriorityQueue)
    → Sorts s r.1
    → Sorts s (give (otherwise_idle r)).2
unfolding give otherwise_idle
give-Sorts s r o = ground arith

get_task-Sorts : (s : ℕ → Sorting) (q : TaskPriorityQueue) → Sorts s q → Sorts s (get_task q).2
unfolding get_task
get_task-Sorts s q o = give-Sorts s (take_urgent q) (take_urgent-Sorts s q o)

delete_ordered-Sorts :
    (s : ℕ → Sorting) (key : ℕ) (clordid : String) (q : TaskPriorityQueue) {t : Task}
    {q' : TaskPriorityQueue}
    → Sorts s q
    → delete_ordered key clordid q ≡ some (t, q')
    → Sorts s q'
unfolding delete_ordered
delete_ordered-Sorts s key clordid q {t} {q'} o e = elim (Option-cases (find key q.p3_order_que)) [
  | inl n ↦ ground arith
  | inr (d, h) ↦ elim (Option-cases (delete_order clordid d)) [
    | inl n ↦ ground arith
    | inr (r, g) ↦
        let sorted = find-IsOrdered s key q.p3_order_que d o h in
        let left =
          delete_order-IsOrdered (ByPrice (s key)) clordid d {t = r.0} {l' = r.1} g sorted in
        let kept = update-IsSorted s key r.1 q.p3_order_que o left in
        let done : delete_ordered key clordid q
            ≡ some (r.0, record q { p3_order_que = update key r.1 q.p3_order_que }) =
          rw (h, delete_ordered) (rw g refl) in
        let same = some-inj (sym done ∙ e) in subst (λ x. Sorts s x.1) same kept
  ]
]

delete_from-Sorts :
    (s : ℕ → Sorting) (key : ℕ) (clordid : String) (q : TaskPriorityQueue)
    → Sorts s q
    → Sorts s (delete_if_have_task key clordid q).2
unfolding delete_if_have_task delete_from
delete_from-Sorts s key clordid q o = elim (Option-cases (delete_ordered key clordid q)) [
  | inl n ↦ ground arith
  | inr (r, h) ↦ ground (arith, delete_ordered-Sorts s key clordid q {t = r.0} {q' = r.1} o h)
]

dispatch-Sorts :
    (s : ℕ → Sorting) (p : TaskPriority) (t : Task) (ordered : Bool) (q q' : TaskPriorityQueue)
    → sorting_of t.side ≡ s t.key
    → Sorts s q
    → dispatch p t ordered q ≡ some (some q')
    → Sorts s q'
unfolding dispatch
dispatch-Sorts s standby_order t true q q' f o e = elim (Option-cases (add_ordered t q)) [
  | inl n ↦ ground arith
  | inr (r, h) ↦ ground (arith, add_ordered-IsSorted s t q r f o h)
]
dispatch-Sorts s standby_order t false q q' f o e = ground arith
dispatch-Sorts s check_order t b q q' f o e = ground arith
dispatch-Sorts s match_order t true q q' f o e = elim (Option-cases (add_ordered t q)) [
  | inl n ↦ ground arith
  | inr (r, h) ↦ ground (arith, add_ordered-IsSorted s t q r f o h)
]
dispatch-Sorts s match_order t false q q' f o e = ground arith
dispatch-Sorts s cancel_order t b q q' f o e = ground arith
dispatch-Sorts s (other n) t b q q' f o e = ground arith

add_task-Sorts :
    (s : ℕ → Sorting) (t : Task) (ordered : Bool) (q q' : TaskPriorityQueue) (c : AddCode)
    (n : Option ℕ)
    → sorting_of t.side ≡ s t.key
    → Sorts s q
    → add_task (some t) ordered q ≡ some (c, n, q')
    → Sorts s q'
unfolding add_task
add_task-Sorts s t ordered q q' c n f o e = elim (Option-cases (dispatch t.priority t ordered q)) [
  | inl d ↦ ground arith
  | inr (r, d) ↦ elim (Option-cases r) [
    | inl z ↦ ground arith
    | inr (p, z) ↦
        ground (arith, dispatch-Sorts s t.priority t ordered q p f o (d ∙ ap (λ x. some x) z))
  ]
]

-- A call of the queue.
pub data Call : Type 0 where
  adds : Task → Bool → Call
  gets : Call
  deletes : ℕ → String → Call

-- The queue after a call; after a fault in `AddTask`, of which there is none, as it was.
abbrev pub after : Call → TaskPriorityQueue → TaskPriorityQueue
after (adds t ordered) q = elim (add_task (some t) ordered q) [ none ↦ q | some (_, _, q') ↦ q' ]
after gets q = (get_task q).2
after (deletes key clordid) q = (delete_if_have_task key clordid q).2

abbrev pub run : List Call → TaskPriorityQueue → TaskPriorityQueue
run [] q = q
run (c ∷ cs) q = run cs (after c q)

-- The key of an order that is added stands for its side.
abbrev pub KeysFit : (ℕ → Sorting) → List Call → Type 0
KeysFit s [] = Unit {0}
KeysFit s (adds t ordered ∷ cs) = (sorting_of t.side ≡ s t.key) × KeysFit s cs
KeysFit s (gets ∷ cs) = KeysFit s cs
KeysFit s (deletes key clordid ∷ cs) = KeysFit s cs

adds-Sorts :
    (s : ℕ → Sorting) (t : Task) (ordered : Bool) (q : TaskPriorityQueue)
    → sorting_of t.side ≡ s t.key
    → Sorts s q
    → Sorts s (after (adds t ordered) q)
adds-Sorts s t ordered q f o = elim (Option-cases (add_task (some t) ordered q)) [
  | inl n ↦ rw (n, after) o
  | inr (r, h) ↦ rw (h, after) (add_task-Sorts s t ordered q r.2 r.0 r.1 f o h)
]

-- Over any sequence of calls of `AddTask`, `GetTask` and `DeleteIfHaveTask` in which the key of each
-- order stands for one side, all deques of a queue stay sorted by price in the way of their keys,
-- descending for purchases and ascending for sales, if they were so at the start.
pub run-Sorts :
    (s : ℕ → Sorting) (q : TaskPriorityQueue) (cs : List Call)
    → KeysFit s cs
    → Sorts s q
    → Sorts s (run cs q)
run-Sorts s q [] f o = o
run-Sorts s q (adds t ordered ∷ cs) f o =
    run-Sorts s (after (adds t ordered) q) cs f.1 (adds-Sorts s t ordered q f.0 o)
run-Sorts s q (gets ∷ cs) f o = run-Sorts s (get_task q).2 cs f (get_task-Sorts s q o)
run-Sorts s q (deletes key clordid ∷ cs) f o =
    run-Sorts s (delete_if_have_task key clordid q).2 cs f (delete_from-Sorts s key clordid q o)
