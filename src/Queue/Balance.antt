-- ===== src/Queue/Balance.antt =====
-- No task is lost or made up, and the count is right.
use simutgw_src.Common.{
  String, ℕ, ◌+◌, ◌≤◌, ◌≡◌, refl, sym, ap, ◌∙◌, inl, inr, Bool, Option, none, some, List, [], ◌∷◌,
  arith, str_eq, Option-cases, Bool-cases,
}
use simutgw_src.Queue.{Task, Map, find, TaskPriorityQueue, max_queue_size}
use simutgw_src.Queue.Weigh.{Weight, weigh, weigh_map, weigh_queue, weigh_map-update}
use simutgw_src.Queue.Tasks.{
  GetCode, got, no_task, first_ordered, take_urgent, take_idle, otherwise_idle, give, count_down,
  get_task, delete_order, delete_ordered, put_back, or_else, delete_from, delete_if_have_task,
}

-- Removal.
delete_order-weigh :
    (f : Weight) (clordid : String) (l : List Task) {t : Task} {l' : List Task}
    → delete_order clordid l ≡ some (t, l')
    → weigh f l ≡ f t + weigh f l'
unfolding delete_order
delete_order-weigh f clordid [] e = cc
delete_order-weigh f clordid (x ∷ l) e = elim (Bool-cases (str_eq x.clordid clordid)) [
  | inl h ↦ ground arith
  | inr h ↦ elim (Option-cases (delete_order clordid l)) [
    | inl n ↦ ground arith
    | inr (r, s) ↦ ground (arith, delete_order-weigh f clordid l {t = r.0} {l' = r.1} s)
  ]
]

first_ordered-weigh :
    (f : Weight) (hanged : Map Bool) (m : Map (List Task)) {t : Task} {m' : Map (List Task)}
    → first_ordered hanged m ≡ some (t, m')
    → weigh_map f m ≡ f t + weigh_map f m'
unfolding first_ordered
first_ordered-weigh f hanged [] e = cc
first_ordered-weigh f hanged ((k, []) ∷ m) e = elim (Option-cases (first_ordered hanged m)) [
  | inl n ↦ ground arith
  | inr (r, s) ↦ ground (arith, first_ordered-weigh f hanged m {t = r.0} {m' = r.1} s)
]
first_ordered-weigh f hanged ((k, x ∷ d) ∷ m) e = elim (Option-cases (first_ordered hanged m)) [
  | inl n ↦ ground arith
  | inr (r, s) ↦ ground (arith, first_ordered-weigh f hanged m {t = r.0} {m' = r.1} s)
]

-- What a step that looks for a task has done: it took the one that it gives, or took none.
abbrev Took : Weight → TaskPriorityQueue → Option Task × TaskPriorityQueue → Type 0
Took f q (none, q') = (weigh_queue f q' ≡ weigh_queue f q) × (q'.task_nums ≡ q.task_nums)
Took f q (some t, q') = (weigh_queue f q ≡ f t + weigh_queue f q') × (q'.task_nums ≡ q.task_nums)

take_urgent-Took : (f : Weight) (q : TaskPriorityQueue) → Took f q (take_urgent q)
unfolding take_urgent
take_urgent-Took f q = elim (Option-cases (first_ordered q.p3_order_que_un_match q.p3_order_que)) [
  | inl n ↦ ground arith
  | inr (r, s) ↦
      ground
        (arith, first_ordered-weigh f q.p3_order_que_un_match q.p3_order_que {t = r.0} {m' = r.1} s)
]

take_idle-Took : (f : Weight) (q : TaskPriorityQueue) → Took f q (take_idle q)
unfolding take_idle
take_idle-Took f q = ground arith

-- The count is the number of tasks that wait, and within the limit.
pub record IsCounted (q : TaskPriorityQueue) : Type 0 where
  pub count : q.task_nums ≡ weigh_queue (λ _. 1) q
  pub bounded : q.task_nums ≤ max_queue_size

-- A call gave `t` away.
pub record Gave (t : Task) (q q' : TaskPriorityQueue) : Type 0 where
  pub same_tasks : (f : Weight) → weigh_queue f q ≡ f t + weigh_queue f q'
  pub counted : IsCounted q'

-- A call gave no task away.
pub record Idle (q q' : TaskPriorityQueue) : Type 0 where
  pub same_tasks : (f : Weight) → weigh_queue f q' ≡ weigh_queue f q
  pub counted : IsCounted q'

abbrev pub Gives : TaskPriorityQueue → GetCode × Option Task × TaskPriorityQueue → Type 0
Gives q (got, some t, q') = Gave t q q'
Gives q (got, none, q') = ⊥
Gives q (no_task, some t, q') = ⊥
Gives q (no_task, none, q') = Idle q q'

count_down-weigh :
    (f : Weight) (q : TaskPriorityQueue) → weigh_queue f (count_down q) ≡ weigh_queue f q
unfolding count_down
count_down-weigh f q = ground arith

count_down-IsCounted :
    (t : Task) (q q' : TaskPriorityQueue)
    → IsCounted q
    → ((f : Weight) → Took f q (some t, q'))
    → Gave t q (count_down q')
unfolding count_down
count_down-IsCounted t q q' c took = record {
  same_tasks = λ f. (took f).0 ∙ ap (λ k. f t + k) (sym (count_down-weigh f q'));
  counted = ground (arith, took (λ _. 1));
}

Took-trans :
    (f : Weight) (q q1 : TaskPriorityQueue) (r : Option Task × TaskPriorityQueue)
    → Took f q (none, q1)
    → Took f q1 r
    → Took f q r
Took-trans f q q1 (none, q2) a b = omega arith
Took-trans f q q1 (some t, q2) a b = omega arith

Took-Idle :
    (q q' : TaskPriorityQueue) → IsCounted q → ((f : Weight) → Took f q (none, q')) → Idle q q'
Took-Idle q q' c took = record {
  same_tasks = λ f. (took f).0;
  counted = ground (arith, took (λ _. 1));
}

give-Gives :
    (q : TaskPriorityQueue) (r : Option Task × TaskPriorityQueue)
    → IsCounted q
    → ((f : Weight) → Took f q r)
    → Gives q (give r)
unfolding give
give-Gives q (some t, q') c took = count_down-IsCounted t q q' c took
give-Gives q (none, q') c took = Took-Idle q q' c took

otherwise_idle-Took :
    (f : Weight) (q : TaskPriorityQueue) (r : Option Task × TaskPriorityQueue)
    → Took f q r
    → Took f q (otherwise_idle r)
unfolding otherwise_idle
otherwise_idle-Took f q (some t, q1) took = took
otherwise_idle-Took f q (none, q1) took =
    Took-trans f q q1 (take_idle q1) took (take_idle-Took f q1)

-- `GetTask` on a queue whose count is right gives one task that waited, and what waits afterwards
-- with that task is what waited before; or it gives none, and all wait that waited before. The count
-- is right again.
pub get_task-Gives : (q : TaskPriorityQueue) → IsCounted q → Gives q (get_task q)
unfolding get_task
get_task-Gives q c =
    give-Gives q (otherwise_idle (take_urgent q)) c
      (λ f. otherwise_idle-Took f q (take_urgent q) (take_urgent-Took f q))

-- What a search for an order has done: it took the task that it gives.
abbrev Removed : Weight → TaskPriorityQueue → Option (Task × TaskPriorityQueue) → Type 0
Removed f q none = Unit {0}
Removed f q (some (t, q')) =
    (weigh_queue f q ≡ f t + weigh_queue f q') × (q'.task_nums ≡ q.task_nums)

or_else-Removed :
    (f : Weight) (q : TaskPriorityQueue) (r s : Option (Task × TaskPriorityQueue))
    → Removed f q r
    → Removed f q s
    → Removed f q (or_else r s)
or_else-Removed f q none s a b = b
or_else-Removed f q (some r) s a b = a

put_back-Removed :
    (f : Weight) (q : TaskPriorityQueue) (l : List Task) (r : Option (Task × List Task))
    (put : List Task → TaskPriorityQueue)
    → ((t : Task) (l' : List Task) → r ≡ some (t, l') → weigh f l ≡ f t + weigh f l')
    → ((l' : List Task)
        → (weigh_queue f (put l') + weigh f l ≡ weigh_queue f q + weigh f l')
          × ((put l').task_nums ≡ q.task_nums))
    → Removed f q (put_back put r)
put_back-Removed f q l none put a b = tt
put_back-Removed f q l (some (t, l')) put a b = omega (arith, a t l' refl, b l')

delete_ordered-Removed :
    (f : Weight) (key : ℕ) (clordid : String) (q : TaskPriorityQueue)
    → Removed f q (delete_ordered key clordid q)
unfolding delete_ordered
delete_ordered-Removed f key clordid q = elim (Option-cases (find key q.p3_order_que)) [
  | inl n ↦ rw (n, delete_ordered) tt
  | inr (d, e) ↦
      rw (e, delete_ordered)
        (put_back-Removed f q d (delete_order clordid d) _
          (λ t l' s. delete_order-weigh f clordid d s)
          (λ l'. omega (arith, weigh_map-update f key d l' q.p3_order_que e)))
]

delete_from-Removed :
    (f : Weight) (key : ℕ) (clordid : String) (q : TaskPriorityQueue)
    → Removed f q (delete_from key clordid q)
unfolding delete_from
delete_from-Removed f key clordid q =
    or_else-Removed f q (delete_ordered key clordid q) _ (delete_ordered-Removed f key clordid q) (
      or_else-Removed f q (put_back _ (delete_order clordid q.p3_unorder_que)) _
        (put_back-Removed f q q.p3_unorder_que _ (λ l. record q { p3_unorder_que = l })
          (λ t l' s. delete_order-weigh f clordid q.p3_unorder_que s) (λ l'. omega arith))
        (or_else-Removed f q (put_back _ (delete_order clordid q.p2_que)) _
          (put_back-Removed f q q.p2_que _ (λ l. record q { p2_que = l })
            (λ t l' s. delete_order-weigh f clordid q.p2_que s) (λ l'. omega arith))
          (put_back-Removed f q q.p1_que _ (λ l. record q { p1_que = l })
            (λ t l' s. delete_order-weigh f clordid q.p1_que s) (λ l'. omega arith))))

-- `DeleteIfHaveTask` on a queue whose count is right gives one task that waited, and what waits
-- afterwards with that task is what waited before; or it gives none, and all wait that waited before.
-- The count is right again.
pub delete_if_have_task-Gives :
    (key : ℕ) (clordid : String) (q : TaskPriorityQueue)
    → IsCounted q
    → Gives q (delete_if_have_task key clordid q)
unfolding delete_if_have_task
delete_if_have_task-Gives key clordid q c = go (delete_from key clordid q) refl
  where
    go :
        (r : Option (Task × TaskPriorityQueue))
        → delete_from key clordid q ≡ r
        → Gives q (delete_if_have_task key clordid q)
    go none e = rw (e, delete_if_have_task) (record { same_tasks = λ f. refl; counted = c })
    go (some (t, q')) e =
        let removed = λ (f : Weight).
          (let r : Removed f q (some (t, q')) = rw e at (delete_from-Removed f key clordid q) in
            r) in
        rw (e, delete_if_have_task)
          (record { same_tasks = λ f. (removed f).0; counted = ground (arith, removed (λ _. 1)) })
