-- ===== src/EtfVolume/Examples.antt =====
-- A basket with a limit of 100 in all and of 60 for one customer.
use simutgw_src.Common.{String, ◌≡◌, ◌≢◌, refl, [], eq_iff, false, true, success, failure, arith}
use simutgw_src.EtfVolume.{Basket, SzEtf, new_basket}
use simutgw_src.EtfVolume.Limits.{HasRoom}
use simutgw_src.EtfVolume.Promises.{
  creating, redeeming, froze_in, defroze_in, confirm_in, known_in, Used, defroze-froze_in,
  confirm-froze_in, confirm-froze_in-Over,
}
use simutgw_src.EtfVolume.Isolation.{SameUser, methods-SameUser}
use simutgw_src.EtfVolume.Keys.{table_froze_in, table_froze-again}

abbrev etf : SzEtf
etf = record {
  creation_limit = 100;
  redemption_limit = 100;
  creation_limit_per_user = 60;
  redemption_limit_per_user = 60;
  net_creation_limit = 100;
  net_redemption_limit = 100;
  net_creation_limit_per_user = 0;
  net_redemption_limit_per_user = 60;
}

abbrev basket : Basket
basket = new_basket etf

room : HasRoom 40 "A" basket.redemption
room = record {
  limit = (omega arith, omega arith);
  user = λ z. (omega arith, omega arith);
  net = (omega arith, omega arith);
  net_user = λ z. (omega arith, omega arith);
}

defroze-froze_in_example :
    ((froze_in redeeming 40 "A" basket).0 ≡ success)
    × (defroze_in redeeming 40 "A" (froze_in redeeming 40 "A" basket).1
        ≡ (success, known_in redeeming "A" basket))
defroze-froze_in_example = defroze-froze_in redeeming 40 "A" basket refl room

confirm-froze_in_example :
    ((confirm_in redeeming 40 "A" (froze_in redeeming 40 "A" basket).1).0 ≡ success)
    × Used 40 "A" basket.redemption
        (confirm_in redeeming 40 "A" (froze_in redeeming 40 "A" basket).1).1.redemption
confirm-froze_in_example = confirm-froze_in redeeming 40 "A" basket refl room

confirm-froze_in-Over_example :
    ((froze_in creating 1000 "A" basket).0 ≡ success)
    × ((confirm_in creating 1000 "A" (froze_in creating 1000 "A" basket).1).0 ≡ failure)
confirm-froze_in-Over_example =
    confirm-froze_in-Over creating 1000 "A" basket refl (omega arith) (omega arith)

abbrev alice : String
alice = "A"

abbrev bob : String
bob = "B"

bob_is_not_alice : bob ≢ alice
bob_is_not_alice e = let t : false ≡ true = (eq_iff bob alice).1 e in cc

methods-SameUser_example :
    SameUser bob basket.creation (froze_in creating 40 alice basket).1.creation
    × SameUser bob basket.creation (defroze_in creating 40 alice basket).1.creation
    × SameUser bob basket.creation (confirm_in creating 40 alice basket).1.creation
    × ((froze_in creating 40 alice basket).1.redemption ≡ basket.redemption)
    × ((defroze_in creating 40 alice basket).1.redemption ≡ basket.redemption)
    × ((confirm_in creating 40 alice basket).1.redemption ≡ basket.redemption)
methods-SameUser_example = methods-SameUser creating 40 bob alice basket bob_is_not_alice

table_froze-again_example :
    let r = table_froze_in creating 10 bob alice etf [] in
    (r.0 ≡ success) × (table_froze_in creating 20 bob alice etf r.1 ≡ (failure, r.1))
table_froze-again_example =
    table_froze-again creating 10 20 bob alice etf [] refl refl bob_is_not_alice
