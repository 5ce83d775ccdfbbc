-- ===== src/Volume/Account.antt =====
-- What `FrozeVolume` promises: a free part and a held part, whose sum only `Confirm` and `Add` change.
use simutgw_src.Common.{
  refl, ◌≤◌, ℕ, ◌+◌, ◌-◌, ◌<◌, min, ◌≡◌, Code, success, failure, arith, u64_mod,
}
use simutgw_src.Volume.{FrozeVolume, query, froze, defroze, confirm}

-- All that a counter holds.
abbrev pub total : FrozeVolume → ℕ
total v = v.un_froze_volume + v.forze_volume

-- The two parts together fit a `uint64_t`, so no operation within them wraps.
abbrev pub Fits : FrozeVolume → Type 0
Fits v = total v < u64_mod

-- What `Froze` does to a counter that fits, seen from outside.
pub record Froze (v : FrozeVolume) (n : ℕ) (r : Code × ℕ × FrozeVolume) : Type 0 where
  pub code : r.0 ≡ success
  pub amount : r.1 ≡ min n v.un_froze_volume
  pub free : r.2.un_froze_volume ≡ v.un_froze_volume - r.1
  pub held : r.2.forze_volume ≡ v.forze_volume + r.1
  pub synced : r.2.latest_syn_volume ≡ v.latest_syn_volume

-- For a counter whose parts fit 64 bits, `Froze` returns 0 and moves the smaller of the amount
-- asked for and of the free part from the free part to the frozen one; it reports that amount and
-- leaves the synchronised count alone.
pub froze_lem : (v : FrozeVolume) (n : ℕ) → Fits v → Froze v n (froze v n)
unfolding froze
froze_lem v n h = ground arith

pub total-froze : (v : FrozeVolume) (n : ℕ) → Fits v → total (froze v n).2 ≡ total v
unfolding froze
total-froze v n h = ground arith

-- `Query` succeeds exactly when `Froze` would freeze the whole amount.
pub query-froze :
    (v : FrozeVolume) (n : ℕ)
    → ((query v n).0 ≡ success → (froze v n).1 ≡ n)
      × ((query v n).0 ≡ failure → (froze v n).1 < n)
      × ((query v n).1 ≡ (froze v n).1)
unfolding query froze
query-froze v n = ground arith

-- A release of what was just frozen gives the counter back.
pub defroze-froze :
    (v : FrozeVolume) (n : ℕ) → Fits v → defroze (froze v n).2 (froze v n).1 ≡ (success, v)
unfolding froze defroze
defroze-froze v n h = ground arith

-- `Confirm` of no more than is frozen succeeds and takes that much out of the counter.
pub confirm-success : (v : FrozeVolume) (n : ℕ) → n ≤ v.forze_volume → (confirm v n).0 ≡ success
unfolding confirm
confirm-success v n h = ground arith

pub total-confirm :
    (v : FrozeVolume) (n : ℕ) → Fits v → n ≤ v.forze_volume → total (confirm v n).1 + n ≡ total v
unfolding confirm
total-confirm v n h k = ground arith

pub defroze-success : (v : FrozeVolume) (n : ℕ) → (defroze v n).0 ≡ success
unfolding defroze
defroze-success v n = refl

pub total-defroze :
    (v : FrozeVolume) (n : ℕ) → Fits v → n ≤ v.forze_volume → total (defroze v n).1 ≡ total v
unfolding defroze
total-defroze v n h k = ground arith

-- `n` free shares of a counter are gone.
pub record Spent (v : FrozeVolume) (n : ℕ) (w : FrozeVolume) : Type 0 where
  pub free : w.un_froze_volume + n ≡ v.un_froze_volume
  pub held : w.forze_volume ≡ v.forze_volume

-- A confirmation of what a freeze has taken.
pub confirm-froze :
    (v : FrozeVolume) (n m : ℕ)
    → Fits v
    → m ≡ min n v.un_froze_volume
    → ((confirm (froze v n).2 m).0 ≡ success) × Spent v m (confirm (froze v n).2 m).1
unfolding froze confirm
confirm-froze v n m h e = ground arith
