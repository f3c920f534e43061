-- ===== src/Scheduler/Batches.antt =====
-- `cancelMany` of server/src/agent/restingExecutor.ts: cancellations by order id, in batches.
use hyper_solid.Prelude.{
  ℕ, zero, suc, String, Bool, true, false, Option, none, some, List, [], ◌∷◌, ◌++◌, map, take, drop,
  length, is_empty, dedup, Dict, lookup, insert, string_eq, if◌then◌else◌,
}
use hyper_solid.Scheduler.Context.{ok, thrown, Effect, CancelRequest}

-- `client_for` gives the call that cancels a batch of assets and order ids.
pub record CancelDeps (W : Type 0) : Type 0 where
  pub client_for : String → Option (List (ℕ × String) → Effect W (Unit {0}))
  pub resolve_asset : String → Effect W ℕ
  pub max_cancel_batch : Option ℕ

-- `deps.maxCancelBatch && deps.maxCancelBatch > 0 ? deps.maxCancelBatch : 100`
abbrev pub max_batch : Option ℕ → ℕ
max_batch none = 100
max_batch (some zero) = 100
max_batch (some (suc n)) = suc n

-- The cancels of the coins that resolved.
abbrev pub known_cancels : Dict String ℕ → List (String × String) → List (ℕ × String)
known_cancels assets [] = []
known_cancels assets ((coin, cloid) ∷ cancels) =
    let rest = known_cancels assets cancels in
    elim (lookup coin assets) [ none ↦ rest | some asset ↦ (asset, cloid) ∷ rest ]

-- `for (let i = 0; i < all.length; i += maxBatch) ... all.slice(i, i + maxBatch)`, on fuel
unfoldable pub batches : {A : Type 0} → ℕ → ℕ → List A → List (List A)
batches zero size xs = []
batches (suc fuel) size [] = []
batches (suc fuel) size (x ∷ xs) = take size (x ∷ xs) ∷ batches fuel size (drop size (x ∷ xs))

module _ {W : Type 0} (deps : CancelDeps W) where
  -- Each coin is resolved once, and one that throws is left out.
  unfoldable pub resolve_coins : List String → Dict String ℕ → W → Dict String ℕ × W
  resolve_coins [] assets w = (assets, w)
  resolve_coins (coin ∷ coins) assets w =
      let (answer, w') = deps.resolve_asset coin w in
      resolve_coins coins (elim answer [ ok asset ↦ insert coin asset assets | thrown ↦ assets ]) w'

  -- An exception of the exchange is passed over.
  unfoldable pub send_batches :
      (List (ℕ × String) → Effect W (Unit {0})) → List (List (ℕ × String)) → W → W
  send_batches cancel [] w = w
  send_batches cancel (batch ∷ rest) w = send_batches cancel rest (cancel batch w).1

  unfoldable pub cancel_batches : CancelRequest → W → Bool × W
  unfolding resolve_coins batches send_batches
  cancel_batches req w =
      if is_empty req.cancels then (true, w) else elim (deps.client_for req.owner) [
        | none ↦ (false, w)
        | some cancel ↦
            let (assets, w') = resolve_coins (dedup (map (λ c. c.0) req.cancels)) [] w in
            let all = known_cancels assets req.cancels in
            let parts = batches (length all) (max_batch deps.max_cancel_batch) all in
            (true, send_batches cancel parts w')
      ]

abbrev pub joined : {A : Type 0} → List (List A) → List A
joined [] = []
joined (xs ∷ xss) = xs ++ joined xss

-- The world after these calls of the exchange, one after the other.
abbrev pub after_calls : {W B : Type 0} → (B → Effect W (Unit {0})) → List B → W → W
after_calls call [] w = w
after_calls call (b ∷ bs) w = after_calls call bs (call b w).1
