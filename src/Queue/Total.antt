-- ===== src/Queue/Total.antt =====
-- The binary insertion ends and stays within the deque, sorted or not.
use simutgw_src.Common.{
  ℕ, zero, suc, ◌+◌, ◌-◌, ◌/◌, ◌≤◌, ◌<◌, ◌≡◌, refl, ◌⊎◌, inl, inr, Bool, true, false, Option, some,
  List, [], ◌∷◌, ltb, leb, ◌==◌, length, arith, Bool-cases, le-or-lt, le→leb, if◌then◌else◌,
}
use simutgw_src.Queue.{Task}
use simutgw_src.Queue.Place.{
  search, place, binary_insert, binary_insert_inc, binary_insert_desc, deque_insert, before_inc,
  before_desc, insert_at, is_buy, is_sell,
}
use simutgw_src.Queue.Cut.{get_elem?-lt, insert_at-length, round, place-round}

search-total :
    (before : ℕ → Bool) (c : List Task) (fuel low end mid : ℕ)
    → end ≤ length c
    → end - low < fuel
    → (low < end) ⊎ (mid < length c)
    → (m : ℕ) × (search before c fuel low end mid ≡ some m) × (m < length c)
unfolding search
search-total before c zero low end mid e f n = elim f [ ]
search-total before c (suc fuel) low end mid e f n = elim (Bool-cases (ltb low end)) [
  | inr done ↦ rw (done, search) (mid, refl, ground arith)
  | inl more ↦
      let m = (low + end - 1) / 2 in
      let lt : low < end = ground arith in
      let (x, at) = get_elem?-lt c m (omega arith) in
      let in_range : m < length c = omega arith in
      elim (Bool-cases (before x.price)) [
        | inl left ↦
            rw (more, search)
              (rw (at, search)
                (rw (left, search)
                  (search-total before c fuel low m m (omega arith) (omega arith) (inr in_range))))
        | inr right ↦
            rw (more, search)
              (rw (at, search)
                (rw (right, search)
                  (search-total before c fuel (m + 1) end m e (omega arith) (inr in_range))))
      ]
]

-- The result of an insertion at some position.
abbrev pub InsertedAt : Task → List Task → Option (List Task) → Type 0
InsertedAt t c r = (j : ℕ) × (j ≤ length c) × (r ≡ some (insert_at j t c))

module _ (before : ℕ → Bool) (t : Task) (c : List Task) where
  round-InsertedAt :
      (mid : ℕ) (x : Task) (next : Option (List Task))
      → mid < length c
      → (mid + 1 < length c → InsertedAt t c next)
      → InsertedAt t c (round before t c mid x next)
  round-InsertedAt mid x next lt rest = elim (Bool-cases (t.price == x.price)) [
    | inl same ↦ elim (Bool-cases (leb t.order_time x.order_time)) [
      | inl older ↦ (mid, omega arith, rw (same, older))
      | inr newer ↦ elim (le-or-lt (length c) (mid + 1)) [
        | inl l ↦ (length c, omega arith, rw (same, newer, le→leb _ _ l, insert_at-length t c))
        | inr l ↦
            let f : leb (length c) (mid + 1) ≡ false = ground arith in
            let (j, le, e) = rest l in (j, le, rw (same, newer, f) e)
      ]
    ]
    | inr other ↦ elim (Bool-cases (before x.price)) [
      | inl left ↦ elim (Bool-cases (leb mid 0)) [
        | inl first ↦ (0, omega arith, rw (other, left, first))
        | inr inner ↦ (mid, omega arith, rw (other, left, inner))
      ]
      | inr right ↦ elim (le-or-lt (length c) (mid + 1)) [
        | inl l ↦ (length c, omega arith, rw (other, right, le→leb _ _ l, insert_at-length t c))
        | inr l ↦
            let f : leb (length c) (mid + 1) ≡ false = ground arith in
            (mid + 1, omega arith, rw (other, right, f))
      ]
    ]
  ]

  place-InsertedAt :
      (fuel mid : ℕ)
      → mid < length c
      → length c < fuel + mid
      → InsertedAt t c (place before t c fuel mid)
  place-InsertedAt zero mid lt f = absurd (omega arith)
  place-InsertedAt (suc fuel) mid lt f =
      let (x, at) = get_elem?-lt c mid lt in
      rw (place-round before t c fuel mid x lt at)
        (round-InsertedAt mid x _ lt (λ l. place-InsertedAt fuel (mid + 1) l (omega arith)))

binary_insert-InsertedAt :
    (before : ℕ → Bool) (t : Task) (c : List Task) → InsertedAt t c (binary_insert before t c)
unfolding binary_insert
binary_insert-InsertedAt before t [] = (0, omega arith, refl)
binary_insert-InsertedAt before t (x ∷ xs) =
    let c = x ∷ xs in
    let (m, found, lt) =
      search-total before c (suc (length c)) 0 (length c) 0 (omega arith) (omega arith)
        (inl (omega arith)) in
    rw (found, binary_insert) (place-InsertedAt before t c (suc (length c)) m lt (omega arith))

if-InsertedAt :
    (t : Task) (c : List Task) (b : Bool) (r s : Option (List Task))
    → InsertedAt t c r
    → InsertedAt t c s
    → InsertedAt t c (if b then r else s)
if-InsertedAt t c true r s p q = p
if-InsertedAt t c false r s p q = q

-- `Deque_Insert` ends for every deque and task, sorted or not, reads only inside the deque, and puts
-- the task at one position, with the other tasks as they were.
pub deque_insert-InsertedAt : (t : Task) (c : List Task) → InsertedAt t c (deque_insert t c)
unfolding deque_insert binary_insert_inc binary_insert_desc
deque_insert-InsertedAt t c =
    let inc = binary_insert-InsertedAt (before_inc t.price) t c in
    let desc = binary_insert-InsertedAt (before_desc t.price) t c in
    if-InsertedAt t c (is_buy t.side) _ _ desc (if-InsertedAt t c (is_sell t.side) _ _ inc desc)
