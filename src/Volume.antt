-- ===== src/Volume.antt =====
-- `class FrozeVolume` (shared_src/cache/FrozeVolume.h): a counter of shares or of a quota, of which a
-- part can be frozen for an order, released again, or confirmed as traded. Each method runs under
-- the counter's mutex, so a call is one step. Log output is left out; what a method writes to an
-- `out` pointer is a result, which a caller that passes NULL ignores.
pub mod Account
pub mod History
mod Examples
use simutgw_src.Common.{ℕ, Code, success, failure, add64, sub64, ltb, if◌then◌else◌}

pub record FrozeVolume : Type 0 where
  pub latest_syn_volume : ℕ
  pub un_froze_volume : ℕ
  pub forze_volume : ℕ

-- The constructors.
abbrev pub empty : FrozeVolume
empty = record { latest_syn_volume = 0; un_froze_volume = 0; forze_volume = 0 }

abbrev pub of_max : ℕ → FrozeVolume
of_max max = record { latest_syn_volume = max; un_froze_volume = max; forze_volume = 0 }

-- The code, and `*out_maxAvl`.
unfoldable pub query : FrozeVolume → ℕ → Code × ℕ
query v cnt = if ltb v.un_froze_volume cnt then (failure, v.un_froze_volume) else (success, cnt)

-- What `Froze` freezes: the amount asked for, or all that is left.
unfoldable pub actual_froze : FrozeVolume → ℕ → ℕ
actual_froze v frozev = if ltb v.un_froze_volume frozev then v.un_froze_volume else frozev

-- The code, `*out_maxfrozev` and the new counter. The code is 0 on every path.
unfoldable pub froze : FrozeVolume → ℕ → Code × ℕ × FrozeVolume
unfolding actual_froze
froze v frozev =
    let actual = actual_froze v frozev in
    (
      success,
      actual,
      record v {
        forze_volume = add64 v.forze_volume actual;
        un_froze_volume = sub64 v.un_froze_volume actual;
      },
    )

-- Too large an amount is only logged.
unfoldable pub defroze : FrozeVolume → ℕ → Code × FrozeVolume
defroze v frozev = (
  success,
  record v {
    forze_volume = sub64 v.forze_volume frozev;
    un_froze_volume = add64 v.un_froze_volume frozev;
  },
)

unfoldable pub confirm : FrozeVolume → ℕ → Code × FrozeVolume
confirm v n =
    if ltb v.forze_volume n
    then (failure, v)
    else (success, record v { forze_volume = sub64 v.forze_volume n })

-- `out_origin`, `out_update` and the new counter.
unfoldable pub db_syn : FrozeVolume → ℕ × ℕ × FrozeVolume
db_syn v = (
  v.latest_syn_volume,
  add64 v.forze_volume v.un_froze_volume,
  record v { latest_syn_volume = add64 v.forze_volume v.un_froze_volume },
)

-- `Init` leaves the frozen part as it is.
unfoldable pub init : FrozeVolume → ℕ → FrozeVolume
init v volume = record v { latest_syn_volume = volume; un_froze_volume = volume }

-- `*out_volumeOrigin`, and the new counter.
unfoldable pub reset_syn : FrozeVolume → ℕ → ℕ × FrozeVolume
reset_syn v volume = (v.latest_syn_volume, record v { latest_syn_volume = volume })

unfoldable pub add : FrozeVolume → ℕ → FrozeVolume
add v inc = record v { un_froze_volume = add64 v.un_froze_volume inc }
