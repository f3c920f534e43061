-- ===== src/Strategies/Tests.antt =====
-- The validation of parameters on concrete requests, and its theorems there.
use mathlib.Core.List.{Permᴰ}
use hyper_solid.Prelude.{
  String, true, false, ◌≡◌, refl, some, Dict, List, [], ◌∷◌, ◌++◌, length, keep, All, string_eq,
  ◌==◌,
}
use hyper_solid.Number.{IsOrdered, Cents, pos, negsuc, cents_number, Cents-IsOrdered}
use hyper_solid.Strategies.Activity.{Activity, list_recent}
use hyper_solid.Strategies.Newest.{Sorted, list_recent_newest}
use hyper_solid.Strategies.Types.{long_only, StrategyKind, StrategyParams, GridParams, kind_of, buy}
use hyper_solid.Strategies.Values.{as_number, Value, text, whole, number, accepted}
use hyper_solid.Strategies.Validate.{validate_params}
use hyper_solid.Strategies.Accepted.{sound, validate_params-sound}
use hyper_solid.Strategies.Json.{fields_of}
use hyper_solid.Strategies.Encoded.{validate_params-fields_of}

abbrev grid_params : GridParams Cents
grid_params = record {
  coin = "BTC";
  lower_price = pos 90;
  upper_price = pos 110;
  levels = 5;
  per_level_usdc = pos 20;
  mode = some long_only;
  dead_man = false;
}

abbrev request : Dict String (Value Cents)
request =
    ("coin", text "BTC")
    ∷ ("lowerPrice", whole 90)
    ∷ ("upperPrice", whole 110)
    ∷ ("levels", whole 5)
    ∷ ("perLevelUsdc", whole 20)
    ∷ []

validate_params-sound_example :
    (kind_of (StrategyParams.grid grid_params) ≡ StrategyKind.grid)
    × (sound (StrategyParams.grid grid_params) ≡ true)
unfolding validate_params
validate_params-sound_example =
    validate_params-sound StrategyKind.grid request (StrategyParams.grid grid_params) refl

abbrev as_value : Cents → Value Cents
as_value (pos n) = whole n
as_value (negsuc n) = number (negsuc n)

read_back : (x : Cents) → as_number (as_value x) ≡ some x
read_back (pos n) = refl
read_back (negsuc n) = refl

abbrev scheduled : StrategyParams Cents
scheduled =
    StrategyParams.scheduled
      (record { coin = "BTC"; side = buy; size_usdc = pos 5; run_at = pos 70; dead_man = true })

validate_params-fields_of_example :
    validate_params StrategyKind.scheduled (fields_of as_value scheduled) ≡ accepted scheduled
validate_params-fields_of_example =
    validate_params-fields_of as_value scheduled read_back refl refl refl

abbrev fill_at : String → Cents → Activity Cents
fill_at owner time = record {
  id = "";
  strategy_id = "d";
  owner = owner;
  time = time;
  coin = "BTC";
  side = "buy";
  sz = pos 1;
  px = pos 5;
}

abbrev log : List (Activity Cents)
log =
    fill_at "0xa" (pos 3)
    ∷ fill_at "0xb" (pos 4)
    ∷ fill_at "0xa" (pos 9)
    ∷ fill_at "0xa" (pos 5)
    ∷ []

instance cents_ordered : IsOrdered Cents
cents_ordered = Cents-IsOrdered

list_recent_newest_example :
    (let recent = list_recent (λ s. s) "0xa" 2 log in
      (length recent ≡ 2)
      × Sorted recent
      × ((left : List (Activity Cents)) × Permᴰ (recent ++ left) (keep (λ r. r.owner == "0xa") log)
          × All (λ a. All (λ b. cents_number.le b.time a.time ≡ true) left) recent))
list_recent_newest_example =
    list_recent_newest (λ s. s) "0xa" 2 log (refl, (refl, (refl, (refl, tt))))
