-- ===== src/Queue/Cut.antt =====
-- Where the binary insertion puts a task: the two loops against the place that the price asks for.
use simutgw_src.Common.{
  Option, true, false, ◌==◌, le→leb, leb→le, sym, if◌then◌else◌, ◌≢◌, le-or-lt, ◌⊎◌, ℕ, zero, suc,
  ◌+◌, ◌-◌, ◌/◌, ◌≤◌, ◌<◌, ◌≡◌, refl, ap, ==_iff, inl, inr, Bool, some, List, [], ◌∷◌, ltb, leb,
  length, get_elem?, arith, Bool-cases,
}
use simutgw_src.Queue.{Task}
use simutgw_src.Queue.Place.{binary_insert, insert_at, place, push_back, search}

-- `b` cuts the deque: the new price goes before an element exactly from position `b` on.
pub record IsCut (before : ℕ → Bool) (c : List Task) (b : ℕ) : Type 0 where
  pub within : b ≤ length c
  pub right : (i : ℕ) (x : Task) → get_elem? c i ≡ some x → before x.price ≡ leb b i

-- The position at which a search ends: the cut, or the one before it.
abbrev pub IsNear : ℕ → ℕ → Type 0
IsNear mid b = (mid ≡ b) ⊎ (suc mid ≡ b)

pub get_elem?-lt : (c : List Task) (i : ℕ) → i < length c → (x : Task) × (get_elem? c i ≡ some x)
get_elem?-lt [] i h = elim h [ ]
get_elem?-lt (x ∷ c) zero h = (x, refl)
get_elem?-lt (x ∷ c) (suc i) h = get_elem?-lt c i (omega arith)

search-IsNear :
    (before : ℕ → Bool) (c : List Task) (b fuel low end mid : ℕ)
    → IsCut before c b
    → low ≤ b
    → b ≤ end
    → end ≤ length c
    → end - low < fuel
    → (low < end) ⊎ (IsNear mid b × (mid < length c))
    → (m : ℕ) × (search before c fuel low end mid ≡ some m) × IsNear m b × (m < length c)
unfolding search
search-IsNear before c b zero low end mid cut l h e f n = elim f [ ]
search-IsNear before c b (suc fuel) low end mid cut l h e f n = elim (Bool-cases (ltb low end)) [
  | inr done ↦ rw (done, search) (mid, refl, ground arith, ground arith)
  | inl more ↦
      let m = (low + end - 1) / 2 in
      let lt : low < end = ground arith in
      let (x, at) = get_elem?-lt c m (omega arith) in
      elim (Bool-cases (before x.price)) [
        | inl yes' ↦
            let p : b ≤ m = ground (arith, cut.right m x at) in
            rw (more, search)
              (rw (at, search)
                (rw (yes', search)
                  (search-IsNear before c b fuel low m m cut l p (omega arith) (omega arith)
                    (grind arith))))
        | inr no' ↦
            let p : m < b = ground (arith, cut.right m x at) in
            rw (more, search)
              (rw (at, search)
                (rw (no', search)
                  (search-IsNear before c b fuel (m + 1) end m cut (omega arith) h e (omega arith)
                    (grind arith))))
      ]
]

pub insert_at-length : (t : Task) (c : List Task) → insert_at (length c) t c ≡ push_back t c
insert_at-length t [] = refl
insert_at-length t (x ∷ c) = ap (λ l. x ∷ l) (insert_at-length t c)

-- Where the task may end up: at the cut, or before the last of the elements of its own price, if that
-- one is no older.
abbrev pub IsPlace : Task → List Task → ℕ → ℕ → Type 0
IsPlace t c b j =
    (j ≡ b)
    ⊎ ((suc j ≡ b)
        × ((x : Task) × (get_elem? c j ≡ some x)
            × (x.price ≡ t.price)
            × (t.order_time ≤ x.order_time)))

module _ (before : ℕ → Bool) (t : Task) (c : List Task) where
  -- One round of the second loop.
  abbrev pub round : ℕ → Task → Option (List Task) → Option (List Task)
  round mid x next =
      if t.price == x.price
      then if leb t.order_time x.order_time
        then some (insert_at mid t c)
        else if leb (length c) (mid + 1)
        then some (push_back t c)
        else next
      else if before x.price
      then if leb mid 0 then some (t ∷ c) else some (insert_at mid t c)
      else if leb (length c) (mid + 1)
      then some (push_back t c)
      else some (insert_at (mid + 1) t c)

  pub place-round :
      (fuel mid : ℕ) (x : Task)
      → mid < length c
      → get_elem? c mid ≡ some x
      → place before t c (suc fuel) mid ≡ round mid x (place before t c fuel (mid + 1))
  unfolding place
  place-round fuel mid x lt at = rw (le→leb mid (length c) (omega arith), place) (rw (at, place))

  place-cut :
      (b fuel : ℕ)
      → IsCut before c b
      → before t.price ≡ false
      → b < length c
      → place before t c (suc fuel) b ≡ some (insert_at b t c)
  place-cut b fuel cut irr lt =
      let (x, at) = get_elem?-lt c b lt in
      let after : before x.price ≡ true = ground (arith, cut.right b x at) in
      let ne : t.price ≢ x.price = λ e. cc in rw (place-round fuel b x lt at) (ground arith)

  after_mid : (mid b : ℕ) → suc mid ≡ b → mid + 1 ≡ b
  after_mid mid b e = omega arith

  -- The end of a round that does not insert before `mid`.
  at_end :
      (b mid : ℕ)
      → IsCut before c b
      → suc mid ≡ b
      → (otherwise : Option (List Task)) → (b < length c → otherwise ≡ some (insert_at b t c))
      → (if leb (length c) (mid + 1) then some (push_back t c) else otherwise)
        ≡ some (insert_at b t c)
  at_end b mid cut e otherwise h = elim (le-or-lt (length c) b) [
    | inl l ↦
        let last : length c ≡ b = omega (arith, cut.within) in
        rw (le→leb (length c) (mid + 1) (omega arith), ← last) (rw insert_at-length)
    | inr l ↦ let f : leb (length c) (mid + 1) ≡ false = ground arith in rw (f, h l)
  ]

  place-IsPlace :
      (b fuel mid : ℕ)
      → IsCut before c b
      → before t.price ≡ false
      → IsNear mid b
      → mid < length c
      → (j : ℕ) × (place before t c (suc (suc fuel)) mid ≡ some (insert_at j t c)) × IsPlace t c b j
  place-IsPlace b fuel mid cut irr (inl e) lt =
      (b, rw e (place-cut b (suc fuel) cut irr (rw e at lt)), inl refl)
  place-IsPlace b fuel mid cut irr (inr e) lt =
      let (x, at) = get_elem?-lt c mid lt in
      let after : before x.price ≡ false = ground (arith, cut.right mid x at) in
      elim (Bool-cases (t.price == x.price)) [
        | inl same ↦ elim (Bool-cases (leb t.order_time x.order_time)) [
          | inl older ↦ (
            mid,
            rw (place-round (suc fuel) mid x lt at) (rw (same, older)),
            inr (e, (x, at, sym ((==_iff t.price x.price).0 same), leb→le _ _ older)),
          )
          | inr newer ↦ (
            b,
            rw (place-round (suc fuel) mid x lt at) (
                rw (same, newer)
                  (at_end b mid cut e _
                    (λ l. rw (after_mid mid b e) (place-cut b fuel cut irr l)))),
            inl refl,
          )
        ]
        | inr other ↦ (
          b,
          rw (place-round (suc fuel) mid x lt at) (
              rw (other, after)
                (at_end b mid cut e _ (λ _. ap (λ k. some (insert_at k t c)) (after_mid mid b e)))),
          inl refl,
        )
      ]

-- The whole insertion, into a deque that is not empty or is. Fuel and indices are enough.
pub binary_insert-IsPlace :
    (before : ℕ → Bool) (t : Task) (c : List Task) (b : ℕ)
    → IsCut before c b
    → before t.price ≡ false
    → (j : ℕ) × (binary_insert before t c ≡ some (insert_at j t c)) × IsPlace t c b j
unfolding binary_insert
binary_insert-IsPlace before t [] b cut irr = (0, refl, inl (omega (arith, cut.within)))
binary_insert-IsPlace before t (x ∷ xs) b cut irr =
    let c = x ∷ xs in
    let (m, found, near, lt) =
      search-IsNear before c b (suc (length c)) 0 (length c) 0 cut (omega arith) cut.within
        (omega arith) (omega arith) (inl (omega arith)) in
    let (j, done, at) = place-IsPlace before t c b (length xs) m cut irr near lt in
    (j, rw (found, binary_insert) done, at)
