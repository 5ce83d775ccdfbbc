-- ===== src/Queue/Place.antt =====
-- `Deque_Price_Time_Binary_Insert_Inc` and `_Desc`: a task is put into a deque that is sorted by price.
-- The two functions differ in one comparison, `before`: the new price goes before the given one.
-- `iHigh` can be -1, so `iHigh + 1` is kept, as `end`. The loops run on fuel, the length of the deque
-- and one more, and return `none` when it runs out or an index is outside the deque.
use simutgw_src.Common.{
  String, ℕ, zero, suc, ◌+◌, ◌-◌, ◌/◌, Bool, true, false, ◌||◌, Option, none, some, List, [], ◌∷◌,
  ◌++◌, ltb, leb, ◌==◌, if◌then◌else◌, length, get_elem?, take, drop, str_eq,
}
use simutgw_src.Queue.{Task}

-- `container.insert(container.begin() + i, t)`
abbrev pub insert_at : ℕ → Task → List Task → List Task
insert_at i t c = take i c ++ (t ∷ drop i c)

abbrev pub push_back : Task → List Task → List Task
push_back t c = c ++ (t ∷ [])

-- The loop `while (iLow <= iHigh)`; the result is `iMid`.
unfoldable pub search : (ℕ → Bool) → List Task → ℕ → ℕ → ℕ → ℕ → Option ℕ
search before c zero low end mid = none
search before c (suc fuel) low end mid = elim (ltb low end) [
  | false ↦ some mid
  | true ↦ elim (get_elem? c ((low + end - 1) / 2)) [
    | none ↦ none
    | some x ↦ elim (before x.price) [
      | false ↦ search before c fuel ((low + end - 1) / 2 + 1) end ((low + end - 1) / 2)
      | true ↦ search before c fuel low ((low + end - 1) / 2) ((low + end - 1) / 2)
    ]
  ]
]

-- The loop `while (0 <= iMid && ciLen >= iMid)`; every branch of its body leaves it or goes on at
-- `iMid + 1`, so the `--iMid` at its end is never reached.
unfoldable pub place : (ℕ → Bool) → Task → List Task → ℕ → ℕ → Option (List Task)
place before t c zero mid = none
place before t c (suc fuel) mid =
    let next = place before t c fuel (mid + 1) in
    if leb mid (length c)
    then elim (get_elem? c mid) [
      | none ↦ none
      | some x ↦
          if t.price == x.price
          then if leb t.order_time x.order_time
            then some (insert_at mid t c)
            else if leb (length c) (mid + 1)
            then some (push_back t c)
            else next
          else if before x.price
          then if leb mid 0 then some (t ∷ c) else some (insert_at mid t c)
          else if leb (length c) (mid + 1)
          then some (push_back t c)
          else some (insert_at (mid + 1) t c)
    ]
    else some c

unfoldable pub binary_insert : (ℕ → Bool) → Task → List Task → Option (List Task)
unfolding search place
binary_insert before t [] = some (push_back t [])
binary_insert before t (x ∷ xs) =
    let c = x ∷ xs in
    elim (search before c (suc (length c)) 0 (length c) 0) [
      | none ↦ none
      | some mid ↦ place before t c (suc (length c)) mid
    ]

-- Ascending: before a higher price. Descending: before a lower one.
abbrev pub before_inc : ℕ → ℕ → Bool
before_inc price q = ltb price q

abbrev pub before_desc : ℕ → ℕ → Bool
before_desc price q = ltb q price

unfoldable pub binary_insert_inc : Task → List Task → Option (List Task)
unfolding binary_insert
binary_insert_inc t c = binary_insert (before_inc t.price) t c

unfoldable pub binary_insert_desc : Task → List Task → Option (List Task)
unfolding binary_insert
binary_insert_desc t c = binary_insert (before_desc t.price) t c

abbrev pub is_buy : String → Bool
is_buy side = str_eq side "B" || str_eq side "1"

abbrev pub is_sell : String → Bool
is_sell side = str_eq side "S" || str_eq side "2"

-- `Deque_Insert`: purchases descend, sales ascend, and an unknown side is logged and descends.
unfoldable pub deque_insert : Task → List Task → Option (List Task)
unfolding binary_insert_inc binary_insert_desc
deque_insert t c =
    if is_buy t.side
    then binary_insert_desc t c
    else if is_sell t.side
    then binary_insert_inc t c
    else binary_insert_desc t c
