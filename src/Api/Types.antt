-- ===== src/Api/Types.antt =====
-- server/src/http/app.ts: requests, replies, and the state and services behind the routes. The bodies
-- of the push routes are JSON of any type (`Value`); those of the others are typed as the code reads
-- them. A challenge, a session and a confirmation may come without a body, or with an owner or an
-- address that is no text, which is none.
use hyper_solid.Prelude.{ℕ, String, Bool, Option, List, Dict}
use hyper_solid.Strategies.Types.{StrategyKind, StrategyStatus, StrategyParams}
use hyper_solid.Strategies.GridLimit.{RungPhase}
use hyper_solid.Strategies.Values.{Value}
use hyper_solid.Strategies.Store.{Store}
use hyper_solid.Strategies.Activity.{Activity}
use hyper_solid.Push.QuietHours.{QuietHours}
use hyper_solid.Push.Stores.{TokenRow, PrefRow, PushPrefs}
use hyper_solid.Access.Sessions.{AuthOptions, Pending}
use hyper_solid.Access.Agents.{Agents, AgentDeps, Signer, AgentStatus}

module _ (N : Type 0) where
  -- What the routes change. The log and the push stores may be left out of the server.
  pub record App : Type 0 where
    pub pending : Pending N
    pub agents : Agents N
    pub store : Store N
    pub activity : Option (List (Activity N))
    pub push_tokens : Option (List (TokenRow N))
    pub push_prefs : Option (List (PrefRow N))
    pub quiet_hours : Option (Dict String QuietHours)

  -- `is_timezone` says whether `Intl` knows the name.
  pub record AppDeps : Type 0 where
    pub auth : AuthOptions N
    pub agent : AgentDeps
    pub agent_ttl_ms : N
    pub version : String
    pub lower : String → String
    pub is_timezone : String → Bool

  -- The time, and what is drawn at random while a request is served: an id, a nonce and a key. `signer`
  -- is what the remote signer answers meanwhile.
  pub record Draws : Type 0 where
    pub now : N
    pub id : String
    pub nonce : String
    pub key : String
    pub signer : Signer

  pub record StrategyDto : Type 0 where
    pub id : String
    pub kind : StrategyKind
    pub status : StrategyStatus
    pub params : StrategyParams N
    pub filled_total_usdc : Option N
    pub next_run_at : Option N
    pub slices_done : Option ℕ
    pub triggered_at : Option N
    pub last_level : Option N
    pub armed_count : Option ℕ
    pub holding_count : Option ℕ

  pub record RungDto : Type 0 where
    pub rung : ℕ
    pub state : RungPhase
    pub buy_price : N
    pub sell_price : N

  pub data Body : Type 0 where
    empty : Body
    error : String → Body
    health : String → Body
    nonce : String → Body
    session : String → Body
    agent : String → Body
    agent_status : AgentStatus N → Body
    prefs : PushPrefs → Body
    hours : QuietHours → Body
    strategy : StrategyDto → Body
    strategies : List StrategyDto → Body
    activity : List (Activity N) → Body
    rungs : List RungDto → Body

  pub record Reply : Type 0 where
    pub status : ℕ
    pub body : Body

  -- A limit of the feed that is no finite number of at least 1 is none; else it is rounded down.
  pub data Request : Type 0 where
    get_health : Request
    auth_challenge : Option (Option String) → Request
    auth_session : Option (Option String × String × String) → Request
    agent_provision : Request
    agent_confirm : Option (Option String) → Request
    get_agent_status : Request
    agent_revoke : Request
    push_register : Dict String (Value N) → Request
    push_unregister : Dict String (Value N) → Request
    get_prefs : Request
    set_prefs : Dict String (Value N) → Request
    get_hours : Request
    set_hours : Dict String (Value N) → Request
    list_strategies : Request
    create_strategy : Option (String × Option (Dict String (Value N))) → Request
    patch_strategy : String → StrategyStatus → Request
    delete_strategy : String → Request
    strategy_activity : String → Request
    strategy_rungs : String → Request
    recent_activity : Option ℕ → Request
    kill_switch : Request
