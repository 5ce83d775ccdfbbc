-- ===== src/Queue/Weigh.antt =====
-- Counting the tasks of a queue. A weight gives each task a number, such as 1, or 1 for one task and 0
-- for the others; two queues with equal sums for every weight hold the same tasks as often.
use simutgw_src.Common.{ℕ, zero, suc, ◌+◌, ◌≡◌, refl, some, List, [], ◌∷◌, ◌++◌, arith}
use simutgw_src.Queue.{Task, Map, find, insert, update, TaskPriorityQueue}
use simutgw_src.Queue.Place.{insert_at}

abbrev pub Weight : Type 0
Weight = Task → ℕ

abbrev pub weigh : Weight → List Task → ℕ
weigh f [] = 0
weigh f (t ∷ ts) = f t + weigh f ts

abbrev pub weigh_map : Weight → Map (List Task) → ℕ
weigh_map f [] = 0
weigh_map f ((k, d) ∷ m) = weigh f d + weigh_map f m

-- All that waits in the queue.
abbrev pub weigh_queue : Weight → TaskPriorityQueue → ℕ
weigh_queue f q =
    weigh f q.p1_que
    + weigh f q.p2_que
    + weigh_map f q.p3_order_que
    + weigh f q.p3_unorder_que
    + weigh f q.p4_que

pub weigh-append : (f : Weight) (xs ys : List Task) → weigh f (xs ++ ys) ≡ weigh f xs + weigh f ys
weigh-append f [] ys = omega arith
weigh-append f (x ∷ xs) ys = omega (arith, weigh-append f xs ys)

pub weigh-insert_at :
    (f : Weight) (j : ℕ) (t : Task) (c : List Task) → weigh f (insert_at j t c) ≡ f t + weigh f c
weigh-insert_at f zero t c = refl
weigh-insert_at f (suc j) t [] = omega arith
weigh-insert_at f (suc j) t (x ∷ c) = omega (arith, weigh-insert_at f j t c)

-- A new value for a key takes the place of the old one.
pub weigh_map-update :
    (f : Weight) (k : ℕ) (old new : List Task) (m : Map (List Task))
    → find k m ≡ some old
    → weigh_map f (update k new m) + weigh f old ≡ weigh_map f m + weigh f new
weigh_map-update f k old new [] e = cc
weigh_map-update f k old new ((j, d) ∷ m) e = ground (arith, weigh_map-update f k old new m)

pub weigh_map-insert :
    (f : Weight) (k : ℕ) (new : List Task) (m : Map (List Task))
    → weigh_map f (insert k new m) ≡ weigh_map f m + weigh f new
weigh_map-insert f k new [] = omega arith
weigh_map-insert f k new ((j, d) ∷ m) = ground (arith, weigh_map-insert f k new m)
