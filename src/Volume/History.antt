-- ===== src/Volume/History.antt =====
-- Any sequence of calls on one `FrozeVolume`, as its callers make them, against a ledger.
use simutgw_src.Common.{ℕ, ◌+◌, ◌≤◌, ◌<◌, ◌≡◌, List, [], ◌∷◌, is_ok, arith, u64_mod, if◌then◌else◌}
use simutgw_src.Volume.{FrozeVolume, froze, defroze, confirm, db_syn, reset_syn, add}
use simutgw_src.Volume.Account.{total, Fits}

-- A call of a method that changes the counter.
pub data Call : Type 0 where
  frozes defrozes confirms adds resets : ℕ → Call
  syncs : Call

unfoldable pub step : FrozeVolume → Call → FrozeVolume
step v (frozes n) = (froze v n).2
step v (defrozes n) = (defroze v n).1
step v (confirms n) = (confirm v n).1
step v (adds n) = add v n
step v (resets n) = (reset_syn v n).1
step v syncs = (db_syn v).2

pub run : FrozeVolume → List Call → FrozeVolume
run v [] = v
run v (c ∷ cs) = run (step v c) cs

-- What a caller has to see to: it releases no more than is frozen, and adds no more than fits.
abbrev pub Allowed : FrozeVolume → Call → Type 0
Allowed v (frozes n) = Unit {0}
Allowed v (defrozes n) = n ≤ v.forze_volume
Allowed v (confirms n) = Unit {0}
Allowed v (adds n) = total v + n < u64_mod
Allowed v (resets n) = Unit {0}
Allowed v syncs = Unit {0}

abbrev pub AllAllowed : FrozeVolume → List Call → Type 0
AllAllowed v [] = Unit {0}
AllAllowed v (c ∷ cs) = Allowed v c × AllAllowed (step v c) cs

abbrev pub incoming : Call → ℕ
incoming (adds n) = n
incoming _ = 0

abbrev pub outgoing : FrozeVolume → Call → ℕ
outgoing v (confirms n) = if is_ok (confirm v n).0 then n else 0
outgoing v _ = 0

step-total :
    (v : FrozeVolume) (c : Call)
    → Fits v
    → Allowed v c
    → Fits (step v c) × (total (step v c) + outgoing v c ≡ total v + incoming c)
unfolding step froze defroze confirm db_syn reset_syn add
step-total v (frozes n) h a = ground arith
step-total v (defrozes n) h a = ground arith
step-total v (confirms n) h a = ground arith
step-total v (adds n) h a = ground arith
step-total v (resets n) h a = ground arith
step-total v syncs h a = ground arith

-- The ledger of a history: what came in, and what went out by each `Confirm` that returned 0.
abbrev pub added : List Call → ℕ
added [] = 0
added (c ∷ cs) = incoming c + added cs

abbrev pub traded : FrozeVolume → List Call → ℕ
traded v [] = 0
traded v (c ∷ cs) = outgoing v c + traded (step v c) cs

-- After any history of calls in which no release exceeds what is frozen and no addition exceeds 64
-- bits, the counter still fits, and free and frozen part together with what was confirmed are what
-- the counter began with and what was added: freezing and releasing neither create nor lose volume.
pub run-total :
    (v : FrozeVolume) (cs : List Call)
    → Fits v
    → AllAllowed v cs
    → Fits (run v cs) × (total (run v cs) + traded v cs ≡ total v + added cs)
unfolding run
run-total v [] h a = ground arith
run-total v (c ∷ cs) h a =
    let s = step-total v c h a.0 in let ih = run-total (step v c) cs s.0 a.1 in (ih.0, omega arith)
