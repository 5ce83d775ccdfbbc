-- ===== src/Queue/Order.antt =====
-- The order of a deque: by price, and by time within a price.
use simutgw_src.Common.{
  ℕ, zero, suc, ◌≤◌, ◌<◌, ◌≡◌, refl, sym, le-or-lt, le→leb, ◌∙◌, ap, subst, ◌⊎◌, inl, inr, Bool,
  true, false, Option, some, List, [], ◌∷◌, leb, length, get_elem?, arith, if◌then◌else◌,
}
use simutgw_src.Queue.{Task}
use simutgw_src.Queue.Place.{
  insert_at, binary_insert, before_inc, before_desc, binary_insert_inc, binary_insert_desc,
}
use simutgw_src.Queue.Cut.{IsCut, binary_insert-IsPlace}

abbrev pub All : (Task → Type 0) → List Task → Type 0
All P [] = Unit {0}
All P (x ∷ xs) = P x × All P xs

-- Every element stands in the relation to every later one.
abbrev pub IsOrdered : (Task → Task → Type 0) → List Task → Type 0
IsOrdered R [] = Unit {0}
IsOrdered R (x ∷ xs) = All (R x) xs × IsOrdered R xs

-- Prices ascend, or descend; in the second pair equal prices keep the order of their times.
abbrev pub Ascending : Task → Task → Type 0
Ascending x y = x.price ≤ y.price

abbrev pub Descending : Task → Task → Type 0
Descending x y = y.price ≤ x.price

abbrev pub AscendingInTime : Task → Task → Type 0
AscendingInTime x y = (x.price < y.price) ⊎ ((x.price ≡ y.price) × (x.order_time ≤ y.order_time))

abbrev pub DescendingInTime : Task → Task → Type 0
DescendingInTime x y = (y.price < x.price) ⊎ ((x.price ≡ y.price) × (x.order_time ≤ y.order_time))

-- Position `j` suits `t`: what stands before it may, and so may what stands from it on.
abbrev pub Suits : (Task → Task → Type 0) → Task → List Task → ℕ → Type 0
Suits R t [] j = j ≡ 0
Suits R t (x ∷ xs) zero = R t x × All (R t) xs
Suits R t (x ∷ xs) (suc j) = R x t × Suits R t xs j

All-insert_at :
    (P : Task → Type 0) (t : Task) (c : List Task) (j : ℕ) → P t → All P c → All P (insert_at j t c)
All-insert_at P t [] zero p a = (p, tt)
All-insert_at P t [] (suc j) p a = (p, tt)
All-insert_at P t (x ∷ c) zero p a = (p, a)
All-insert_at P t (x ∷ c) (suc j) p a = (a.0, All-insert_at P t c j p a.1)

insert_at-IsOrdered :
    (R : Task → Task → Type 0) (t : Task) (c : List Task) (j : ℕ)
    → IsOrdered R c
    → Suits R t c j
    → IsOrdered R (insert_at j t c)
insert_at-IsOrdered R t [] zero o s = (tt, tt)
insert_at-IsOrdered R t [] (suc j) o s = (tt, tt)
insert_at-IsOrdered R t (x ∷ c) zero o s = (s, o)
insert_at-IsOrdered R t (x ∷ c) (suc j) o s =
    (All-insert_at (R x) t c j s.0 o.0, insert_at-IsOrdered R t c j o.1 s.1)

All-get :
    (P : Task → Type 0) (c : List Task) (i : ℕ) (x : Task) → All P c → get_elem? c i ≡ some x → P x
All-get P [] i x a e = cc
All-get P (y ∷ c) zero x a e = let p : y ≡ x = cc in subst P p a.0
All-get P (y ∷ c) (suc i) x a e = All-get P c i x a.1 e

-- A sorted deque has a cut.
cut_of : (ℕ → Bool) → List Task → ℕ
cut_of before [] = 0
cut_of before (x ∷ xs) = if before x.price then 0 else suc (cut_of before xs)

cut_of-le : (before : ℕ → Bool) (c : List Task) → cut_of before c ≤ length c
unfolding cut_of
cut_of-le before [] = omega arith
cut_of-le before (x ∷ c) = ground (arith, cut_of-le before c)

module _ (before : ℕ → Bool) (R : Task → Task → Type 0)
    (mono : (x y : Task) → R x y → before x.price ≡ true → before y.price ≡ true) where
  cut_of-right :
      (c : List Task) (i : ℕ) (y : Task)
      → IsOrdered R c
      → get_elem? c i ≡ some y
      → before y.price ≡ leb (cut_of before c) i
  unfolding cut_of
  cut_of-right [] i y o e = cc
  cut_of-right (x ∷ c) zero y o e = ground arith
  cut_of-right (x ∷ c) (suc i) y o e =
      ground (arith, cut_of-right c i y o.1 e, mono x y (All-get (R x) c i y o.0 e))

  cut_of-IsCut : (c : List Task) → IsOrdered R c → IsCut before c (cut_of before c)
  cut_of-IsCut c o = record { within = cut_of-le before c; right = λ i y e. cut_of-right c i y o e }

-- `Suits` by positions.
Suits-of :
    (R : Task → Task → Type 0) (t : Task) (c : List Task) (j : ℕ)
    → j ≤ length c
    → ((i : ℕ) (x : Task) → get_elem? c i ≡ some x → (i < j → R x t) × (j ≤ i → R t x))
    → Suits R t c j
Suits-of R t [] j h s = omega arith
Suits-of R t (x ∷ c) zero h s =
    ((s 0 x refl).1 (omega arith), all_of c (λ i y e. (s (suc i) y e).1 (omega arith)))
  where
    all_of : (d : List Task) → ((i : ℕ) (y : Task) → get_elem? d i ≡ some y → R t y) → All (R t) d
    all_of [] r = tt
    all_of (y ∷ d) r = (r 0 y refl, all_of d (λ i z e. r (suc i) z e))
Suits-of R t (x ∷ c) (suc j) h s = (
  (s 0 x refl).0 (omega arith),
  Suits-of R t c j (omega arith)
      λ i y e. (λ l. (s (suc i) y e).0 (omega arith), λ l. (s (suc i) y e).1 (omega arith)),
)

-- What a deque has become: `t` at a position that suits it, everything else in its order.
abbrev pub Inserted : (Task → Task → Type 0) → Task → List Task → Option (List Task) → Type 0
Inserted R t c r =
    (j : ℕ) × (j ≤ length c) × (r ≡ some (insert_at j t c)) × IsOrdered R (insert_at j t c)

at_or_after :
    (c : List Task) (i j b price : ℕ) (x y : Task)
    → get_elem? c i ≡ some x
    → get_elem? c j ≡ some y
    → y.price ≡ price
    → suc j ≡ b
    → j ≤ i
    → (x.price ≡ price) ⊎ (b ≤ i)
at_or_after c i j b price x y ei ej p q l = elim (le-or-lt i j) [
  | inl h ↦
      let same : i ≡ j = omega arith in
      let at : get_elem? c i ≡ some y = ap (get_elem? c) same ∙ ej in
      let eq : some x ≡ some y = sym ei ∙ at in inl (ground arith)
  | inr h ↦ inr (omega arith)
]

-- An insertion keeps an order of tasks that goes with its test, if equal prices may stand either way.
insert-ByPrice :
    (before : ℕ → Bool) (R : Task → Task → Type 0) (t : Task) (c : List Task)
    → ((x y : Task) → R x y → before x.price ≡ true → before y.price ≡ true)
    → ((x : Task) → before x.price ≡ true → R t x)
    → ((x : Task) → before x.price ≡ false → R x t)
    → ((x : Task) → x.price ≡ t.price → R t x)
    → before t.price ≡ false
    → IsOrdered R c
    → Inserted R t c (binary_insert before t c)
insert-ByPrice before R t c mono yes' no' same irr o =
    let cut = cut_of-IsCut before R mono c o in
    let (j, done, at) = binary_insert-IsPlace before t c (cut_of before c) cut irr in
    let le : j ≤ length c = ground (arith, cut_of-le before c) in
    (
      j,
      le,
      done,
      insert_at-IsOrdered R t c j o (
          Suits-of R t c j le λ i x e. (
            λ l. no' x (cut.right i x e ∙ ground arith),
            λ l. elim at [
              | inl q ↦ yes' x (cut.right i x e ∙ ground arith)
              | inr (q, (y, ey, price, _)) ↦
                  elim (at_or_after c i j (cut_of before c) t.price x y e ey price q l) [
                    | inl s ↦ same x s
                    | inr s ↦ yes' x (cut.right i x e ∙ le→leb _ _ s)
                  ]
            ],
          )),
    )

-- The two sortings, with their orders and their insertions.
pub data Sorting : Type 0 where
  ascending descending : Sorting

abbrev pub ByPrice : Sorting → Task → Task → Type 0
ByPrice ascending = Ascending
ByPrice descending = Descending

abbrev pub ByTime : Sorting → Task → Task → Type 0
ByTime ascending = AscendingInTime
ByTime descending = DescendingInTime

abbrev pub insert_in : Sorting → Task → List Task → Option (List Task)
insert_in ascending = binary_insert_inc
insert_in descending = binary_insert_desc

-- Each of the two binary insertions puts a task into a deque that is sorted by price, ascending or
-- descending, at a position where the deque stays sorted, whatever the times; it ends, and reads only
-- within the deque.
pub binary_insert-ByPrice :
    (s : Sorting) (t : Task) (c : List Task)
    → IsOrdered (ByPrice s) c
    → Inserted (ByPrice s) t c (insert_in s t c)
unfolding binary_insert_inc binary_insert_desc
binary_insert-ByPrice ascending t c o =
    insert-ByPrice (before_inc t.price) Ascending t c (λ x y r h. ground arith)
      (λ x h. ground arith) (λ x h. ground arith) (λ x h. ground arith) (ground arith) o
binary_insert-ByPrice descending t c o =
    insert-ByPrice (before_desc t.price) Descending t c (λ x y r h. ground arith)
      (λ x h. ground arith) (λ x h. ground arith) (λ x h. ground arith) (ground arith) o

-- The same for an order in time, where a task is newer than those of its price.
insert-ByTime :
    (before : ℕ → Bool) (R : Task → Task → Type 0) (t : Task) (c : List Task)
    → ((x y : Task) → R x y → before x.price ≡ true → before y.price ≡ true)
    → ((x : Task) → before x.price ≡ true → R t x)
    → ((x : Task)
        → before x.price ≡ false
        → (x.price ≡ t.price → x.order_time < t.order_time)
        → R x t)
    → before t.price ≡ false
    → IsOrdered R c
    → All (λ x. x.price ≡ t.price → x.order_time < t.order_time) c
    → Inserted R t c (binary_insert before t c)
insert-ByTime before R t c mono yes' no' irr o newer =
    let cut = cut_of-IsCut before R mono c o in
    let (j, done, at) = binary_insert-IsPlace before t c (cut_of before c) cut irr in
    let le : j ≤ length c = ground (arith, cut_of-le before c) in
    let exact : j ≡ cut_of before c = elim at [
      | inl q ↦ q
      | inr (q, (y, ey, price, older)) ↦ absurd (
          let n =
            All-get (λ x. x.price ≡ t.price → x.order_time < t.order_time) c j y newer ey price in
          omega arith)
    ] in
    (
      j,
      le,
      done,
      insert_at-IsOrdered R t c j o (
          Suits-of R t c j le λ i x e. (
            λ l.
                no' x (cut.right i x e ∙ ground arith)
                  (All-get (λ y. y.price ≡ t.price → y.order_time < t.order_time) c i x newer e),
            λ l. yes' x (cut.right i x e ∙ ground arith),
          )),
    )

-- If a deque is sorted by price and, within a price, by time, and the new task is later than all of
-- its own price, then it goes behind all of those: the deque stays sorted by price and time.
pub binary_insert-ByTime :
    (s : Sorting) (t : Task) (c : List Task)
    → All (λ x. x.price ≡ t.price → x.order_time < t.order_time) c
    → IsOrdered (ByTime s) c
    → Inserted (ByTime s) t c (insert_in s t c)
unfolding binary_insert_inc binary_insert_desc
binary_insert-ByTime ascending t c newer o =
    insert-ByTime (before_inc t.price) AscendingInTime t c (λ x y r h. ground arith)
      (λ x h. ground arith) (λ x h k. ground arith) (ground arith) o newer
binary_insert-ByTime descending t c newer o =
    insert-ByTime (before_desc t.price) DescendingInTime t c (λ x y r h. ground arith)
      (λ x h. ground arith) (λ x h k. ground arith) (ground arith) o newer

-- A task that meets one other in a deque, of the same price and of the same second, goes before it,
-- though it came later.
pub binary_insert_tie :
    (t x : Task)
    → t.price ≡ x.price
    → t.order_time ≡ x.order_time
    → (binary_insert_inc t (x ∷ []) ≡ some (t ∷ x ∷ []))
      × (binary_insert_desc t (x ∷ []) ≡ some (t ∷ x ∷ []))
unfolding binary_insert_inc binary_insert_desc
binary_insert_tie t x p q = (ground arith, ground arith)
