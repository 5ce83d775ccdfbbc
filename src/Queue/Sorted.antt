-- ===== src/Queue/Sorted.antt =====
-- The sorted deques stay sorted, whatever the worker and the gateway do to the queue.
use simutgw_src.Common.{
  ℕ, String, ◌≡◌, refl, sym, ap, ◌∙◌, subst, inl, inr, Bool, none, some, List, [], ◌∷◌, arith,
  str_eq, Option-cases, Bool-cases, ==_iff, ◌==◌, ltb, none≢some, some-inj, if◌then◌else◌,
}
use simutgw_src.Queue.{Task, Map, find, insert, update, TaskPriorityQueue}
use simutgw_src.Queue.Place.{is_buy, is_sell, push_back, deque_insert, insert_at}
use simutgw_src.Queue.Order.{
  All, IsOrdered, Sorting, ascending, descending, ByPrice, insert_in, binary_insert-ByPrice,
}
use simutgw_src.Queue.Tasks.{first_ordered, add_ordered, delete_order}

-- How `Deque_Insert` sorts the orders of a side.
abbrev pub sorting_of : String → Sorting
sorting_of side = if is_buy side then descending else if is_sell side then ascending else descending

deque_insert-in : (t : Task) (c : List Task) → deque_insert t c ≡ insert_in (sorting_of t.side) t c
unfolding deque_insert
deque_insert-in t c = elim (Bool-cases (is_buy t.side)) [
  | inl a ↦ rw a refl
  | inr a ↦ elim (Bool-cases (is_sell t.side)) [
    | inl b ↦ rw a (rw b refl)
    | inr b ↦ rw a (rw b refl)
  ]
]

-- Each deque is sorted by price in the way of its key.
abbrev pub IsSorted : (ℕ → Sorting) → Map (List Task) → Type 0
IsSorted s [] = Unit {0}
IsSorted s ((k, d) ∷ m) = IsOrdered (ByPrice (s k)) d × IsSorted s m

pub find-IsOrdered :
    (s : ℕ → Sorting) (k : ℕ) (m : Map (List Task)) (d : List Task)
    → IsSorted s m
    → find k m ≡ some d
    → IsOrdered (ByPrice (s k)) d
find-IsOrdered s k [] d o e = cc
find-IsOrdered s k ((j, c) ∷ m) d o e = elim (Bool-cases (k == j)) [
  | inl a ↦
      let here : find k ((j, c) ∷ m) ≡ some c = rw a refl in
      let same : c ≡ d = some-inj (sym here ∙ e) in
      subst (λ i. IsOrdered (ByPrice (s i)) d) (sym ((==_iff k j).0 a))
        (subst (λ l. IsOrdered (ByPrice (s j)) l) same o.0)
  | inr a ↦
      let later : find k ((j, c) ∷ m) ≡ find k m = rw a refl in
      find-IsOrdered s k m d o.1 (sym later ∙ e)
]

insert-IsSorted :
    (s : ℕ → Sorting) (k : ℕ) (d : List Task) (m : Map (List Task))
    → IsSorted s m
    → IsOrdered (ByPrice (s k)) d
    → IsSorted s (insert k d m)
insert-IsSorted s k d [] o h = (h, tt)
insert-IsSorted s k d ((j, c) ∷ m) o h = elim (Bool-cases (ltb k j)) [
  | inl a ↦ rw a (h, o)
  | inr a ↦ rw a (o.0, insert-IsSorted s k d m o.1 h)
]

pub update-IsSorted :
    (s : ℕ → Sorting) (k : ℕ) (d : List Task) (m : Map (List Task))
    → IsSorted s m
    → IsOrdered (ByPrice (s k)) d
    → IsSorted s (update k d m)
update-IsSorted s k d [] o h = tt
update-IsSorted s k d ((j, c) ∷ m) o h = elim (Bool-cases (k == j)) [
  | inl a ↦ rw a (h, o.1)
  | inr a ↦ rw a (o.0, update-IsSorted s k d m o.1 h)
]

pub first_ordered-IsSorted :
    (s : ℕ → Sorting) (hanged : Map Bool) (m : Map (List Task)) {t : Task} {m' : Map (List Task)}
    → IsSorted s m
    → first_ordered hanged m ≡ some (t, m')
    → IsSorted s m'
unfolding first_ordered
first_ordered-IsSorted s hanged [] o e = cc
first_ordered-IsSorted s hanged ((k, []) ∷ m) o e = elim (Option-cases (first_ordered hanged m)) [
  | inl n ↦ ground arith
  | inr (r, h) ↦ ground (arith, first_ordered-IsSorted s hanged m {t = r.0} {m' = r.1} o.1 h)
]
first_ordered-IsSorted s hanged ((k, x ∷ d) ∷ m) o e =
    elim (Option-cases (first_ordered hanged m)) [
      | inl n ↦ ground arith
      | inr (r, h) ↦ ground (arith, first_ordered-IsSorted s hanged m {t = r.0} {m' = r.1} o.1 h)
    ]

-- `AddTask`.
pub add_ordered-IsSorted :
    (s : ℕ → Sorting) (t : Task) (q q' : TaskPriorityQueue)
    → sorting_of t.side ≡ s t.key
    → IsSorted s q.p3_order_que
    → add_ordered t q ≡ some q'
    → IsSorted s q'.p3_order_que
unfolding add_ordered
add_ordered-IsSorted s t q q' f o e = elim (Option-cases (find t.key q.p3_order_que)) [
  | inl n ↦
      let done : add_ordered t q
          ≡ some (record q { p3_order_que = insert t.key (push_back t []) q.p3_order_que }) =
        rw (n, add_ordered) refl in
      subst (λ p. IsSorted s p.p3_order_que) (some-inj (sym done ∙ e))
        (insert-IsSorted s t.key (push_back t []) q.p3_order_que o (tt, tt))
  | inr (d, h) ↦
      let (j, le, at, sorted) =
        binary_insert-ByPrice (s t.key) t d (find-IsOrdered s t.key q.p3_order_que d o h) in
      let put : deque_insert t d ≡ some (insert_at j t d) =
        deque_insert-in t d ∙ ap (λ x. insert_in x t d) f ∙ at in
      let done : add_ordered t q
          ≡ some (record q { p3_order_que = update t.key (insert_at j t d) q.p3_order_que }) =
        rw (h, add_ordered) (rw put refl) in
      subst (λ p. IsSorted s p.p3_order_que) (some-inj (sym done ∙ e))
        (update-IsSorted s t.key (insert_at j t d) q.p3_order_que o sorted)
]

-- Removal from a deque.
delete_order-All :
    (P : Task → Type 0) (clordid : String) (l : List Task) {t : Task} {l' : List Task}
    → delete_order clordid l ≡ some (t, l')
    → All P l
    → All P l'
unfolding delete_order
delete_order-All P clordid [] e a = cc
delete_order-All P clordid (x ∷ l) {t} {l'} e a = elim (Bool-cases (str_eq x.clordid clordid)) [
  | inl h ↦
      let done : delete_order clordid (x ∷ l) ≡ some (x, l) = rw (h, delete_order) refl in
      let same : (x, l) ≡ (t, l') = some-inj (sym done ∙ e) in
      subst (λ r. All P r) (ap (λ r. r.1) same) a.1
  | inr h ↦ elim (Option-cases (delete_order clordid l)) [
    | inl n ↦
        let done : delete_order clordid (x ∷ l) ≡ none = rw (h, delete_order) (rw n refl) in
        absurd (none≢some (sym done ∙ e))
    | inr (r, n) ↦
        let done : delete_order clordid (x ∷ l) ≡ some (r.0, x ∷ r.1) =
          rw (h, delete_order) (rw n refl) in
        let same : (r.0, x ∷ r.1) ≡ (t, l') = some-inj (sym done ∙ e) in
        subst (λ k. All P k) (ap (λ k. k.1) same)
          (a.0, delete_order-All P clordid l {t = r.0} {l' = r.1} n a.1)
  ]
]

pub delete_order-IsOrdered :
    (R : Task → Task → Type 0) (clordid : String) (l : List Task) {t : Task} {l' : List Task}
    → delete_order clordid l ≡ some (t, l')
    → IsOrdered R l
    → IsOrdered R l'
unfolding delete_order
delete_order-IsOrdered R clordid [] e a = cc
delete_order-IsOrdered R clordid (x ∷ l) {t} {l'} e a =
    elim (Bool-cases (str_eq x.clordid clordid)) [
      | inl h ↦
          let done : delete_order clordid (x ∷ l) ≡ some (x, l) = rw (h, delete_order) refl in
          let same : (x, l) ≡ (t, l') = some-inj (sym done ∙ e) in
          subst (λ r. IsOrdered R r) (ap (λ r. r.1) same) a.1
      | inr h ↦ elim (Option-cases (delete_order clordid l)) [
        | inl n ↦
            let done : delete_order clordid (x ∷ l) ≡ none = rw (h, delete_order) (rw n refl) in
            absurd (none≢some (sym done ∙ e))
        | inr (r, n) ↦
            let done : delete_order clordid (x ∷ l) ≡ some (r.0, x ∷ r.1) =
              rw (h, delete_order) (rw n refl) in
            let same : (r.0, x ∷ r.1) ≡ (t, l') = some-inj (sym done ∙ e) in
            subst (λ k. IsOrdered R k) (ap (λ k. k.1) same)
              (
                delete_order-All (R x) clordid l {t = r.0} {l' = r.1} n a.0,
                delete_order-IsOrdered R clordid l {t = r.0} {l' = r.1} n a.1,
              )
      ]
    ]
