-- ===== src/Volume/Examples.antt =====
-- Tests of `FrozeVolume`, and instances of its theorems.
use simutgw_src.Common.{◌+◌, ◌≡◌, refl, List, [], ◌∷◌, success, arith}
use simutgw_src.Volume.{FrozeVolume, of_max, froze, defroze, confirm, db_syn, add}
use simutgw_src.Volume.Account.{total, Fits}
use simutgw_src.Volume.History.{
  Call, frozes, defrozes, confirms, adds, syncs, step, run, added, traded, run-total,
}

-- 100 shares free.
abbrev hundred : FrozeVolume
hundred = of_max 100

froze_part :
    froze hundred 130 ≡ (success, 100, record hundred { un_froze_volume = 0; forze_volume = 100 })
unfolding froze
froze_part = refl

abbrev day : List Call
day = frozes 60 ∷ confirms 70 ∷ confirms 40 ∷ defrozes 20 ∷ adds 5 ∷ syncs ∷ []

run-total_example :
    Fits (run hundred day)
    × (total (run hundred day) + traded hundred day ≡ total hundred + added day)
unfolding step froze defroze confirm db_syn add
run-total_example = run-total hundred day (omega arith) (omega arith)
