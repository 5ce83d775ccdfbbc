-- ===== src/Prep/Creation.antt =====
-- `CreationQuery` (shared_src/cache/UserStockHelper.cpp): whether the components of an ETF to be created are there,
-- with cash for what is not, and then their freeze.
use simutgw_src.Common.{
  ℕ, String, ◌/◌, not, Option, none, some, List, [], ◌∷◌, ◌++◌, Code, success, failure, is_ok, ◌==◌,
  mul64, sub64, str_eq, if◌then◌else◌,
}
use simutgw_src.Stock.Creation.{creation_query, creation_froze}
use simutgw_src.Trade.{FrozeComponent}
use simutgw_src.Accounts.{Cache, holding, store, look_up}
use simutgw_src.Prep.{
  Doubles, SubstituteFlag, only_security, security_and_cash, only_cash, EtfComponent, EtfInfo,
  Sources,
}

module _ (d : Doubles) (q : Sources d.Double) (account : String) (times : ℕ) where
  -- Where shares are short, cash is to stand in for them: the code and what is left of it.
  abbrev pub cash_for : EtfComponent d.Double → ℕ → d.Double → Code × d.Double
  cash_for x short cash = elim (q.static_quot x.component.underlying_security_id) [
    | none ↦ (failure, cash)
    | some (zrsp, tpbz) ↦
        if not (str_eq tpbz "F")
        then (failure, cash)
        else (let cash' = d.minus cash (mul64 short zrsp) in
            (if d.is_negative cash' then failure else success, cash'))
  ]

  abbrev pub short_query : SubstituteFlag → EtfComponent d.Double → ℕ → d.Double → Code × d.Double
  short_query only_security x short cash = (failure, cash)
  short_query _ x short cash = cash_for x short cash

  -- One round of the first loop, for a component that is not cash only.
  abbrev pub query_shares :
      EtfComponent d.Double → d.Double → Cache → Option (Code × d.Double × Cache)
  query_shares x cash c =
      let stock = x.component.underlying_security_id in
      let (code, c1) = look_up q.world account stock c in
      if not (is_ok code) then some (failure, cash, c1) else elim (holding account stock c1) [
        | none ↦ none
        | some s ↦
            let want = mul64 times x.component.component_share in
            let (code2, max, s') = creation_query q.world.time want s in
            let c2 = store account stock s' c1 in
            if is_ok code2
            then some (success, cash, c2)
            else (let (code3, cash') = short_query x.substitute_flag x (sub64 want max) cash in
                some (code3, cash', c2))
      ]

  abbrev pub query_component :
      SubstituteFlag → EtfComponent d.Double → d.Double → Cache → Option (Code × d.Double × Cache)
  query_component only_cash x cash c =
      some (if d.is_negative cash then failure else success, cash, c)
  query_component _ x cash c = query_shares x cash c

  unfoldable pub query_all : List (EtfComponent d.Double) → d.Double → Cache → Option (Code × Cache)
  query_all [] cash c = some (success, c)
  query_all (x ∷ xs) cash c = elim (query_component x.substitute_flag x cash c) [
    | none ↦ none
    | some (failure, _, c') ↦ some (failure, c')
    | some (success, cash', c') ↦ query_all xs cash' c'
  ]

  -- What the second loop does where the freeze is refused: the cash, or none if the function ends.
  abbrev pub short_froze : SubstituteFlag → EtfComponent d.Double → ℕ → Option ℕ
  short_froze security_and_cash x short = elim (q.static_quot x.component.underlying_security_id) [
    | none ↦ none
    | some (zrsp, _) ↦ some (mul64 short (d.with_premium zrsp x.premium_ratio))
  ]
  short_froze _ x short = some 0

  -- A component begins with all its numbers 0.
  abbrev pub froze_with : String → ℕ → ℕ → ℕ → FrozeComponent
  froze_with stock act avl cash = record {
    security_id = stock;
    act_pch_count = act;
    avl_count = avl;
    cash = cash;
    rdp_count = 0;
  }

  -- One round of the second loop, for a component that is not cash only: the component to note, if the loop
  -- goes on.
  abbrev pub froze_shares : EtfComponent d.Double → Cache → Option (Option FrozeComponent × Cache)
  froze_shares x c =
      let stock = x.component.underlying_security_id in
      let (_, c1) = look_up q.world account stock c in
      elim (holding account stock c1) [
        | none ↦ none
        | some s ↦
            let want = mul64 times x.component.component_share in
            let (code, act, avl, s') = creation_froze q.world.time want s in
            let c2 = store account stock s' c1 in
            if is_ok code
            then some (some (froze_with stock act avl 0), c2)
            else some (
              elim (short_froze x.substitute_flag x (sub64 (sub64 want act) avl)) [
                | none ↦ none
                | some cash ↦ some (froze_with stock act avl cash)
              ],
              c2,
            )
      ]

  abbrev pub froze_component :
      SubstituteFlag → EtfComponent d.Double → Cache → Option (Option FrozeComponent × Cache)
  froze_component only_cash x c = some (
    some (
        froze_with x.component.underlying_security_id 0 0 (mul64 times x.creation_cash_substitute)),
    c,
  )
  froze_component _ x c = froze_shares x c

  unfoldable pub froze_all :
      List (EtfComponent d.Double)
      → List FrozeComponent
      → Cache
      → Option (Code × List FrozeComponent × Cache)
  froze_all [] fs c = some (success, fs, c)
  froze_all (x ∷ xs) fs c = elim (froze_component x.substitute_flag x c) [
    | none ↦ none
    | some (none, c') ↦ some (failure, fs, c')
    | some (some f, c') ↦ froze_all xs (fs ++ (f ∷ [])) c'
  ]

-- `CreationQuery`, and `none` for the division by a unit of 0.
unfoldable pub account_creation_query :
    (d : Doubles)
    → Sources d.Double
    → String
    → ℕ
    → EtfInfo d.Double
    → List FrozeComponent
    → Cache
    → Option (Code × List FrozeComponent × Cache)
account_creation_query d q account qty e fs c =
    let times = qty / e.creation_redemption_unit in
    let cash =
      d.times (mul64 (mul64 qty e.creation_redemption_unit) e.nav_per_cu) e.max_cash_ratio in
    if e.creation_redemption_unit == 0
    then none
    else elim (query_all d q account times e.components cash c) [
      | none ↦ none
      | some (failure, c') ↦ some (failure, fs, c')
      | some (success, c') ↦ froze_all d q account times e.components fs c'
    ]
