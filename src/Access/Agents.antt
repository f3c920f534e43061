-- ===== src/Access/Agents.antt =====
-- server/src/agent/agentManager.ts: `AgentManager` over `MemoryAgentStore`. The key that is drawn, its
-- address and the remote signer are arguments.
use Prim.Native.String.{◌++◌}
use hyper_solid.Prelude.{
  String, Bool, true, false, not, ◌&&◌, Option, none, some, Dict, lookup, insert, erase, string_eq,
  ◌==◌, if◌then◌else◌,
}
use hyper_solid.Number.{Number}
use hyper_solid.Scheduler.Context.{Outcome, ok, thrown}

pub record AgentRecord (N : Type 0) : Type 0 where
  pub owner : String
  pub agent_address : String
  pub private_key : Option String
  pub key_id : Option String
  pub approved : Bool
  pub valid_until : Option N

pub record AgentStatus (N : Type 0) : Type 0 where
  pub approved : Bool
  pub agent_address : Option String
  pub valid_until : Option N

-- What the remote signer answers to one `createKey`, by the key's id and the owner. It is an argument
-- of each call, so that the signer may answer otherwise the next time.
abbrev pub Signer : Type 0
Signer = String → String → Outcome String

-- `delegated`: a signer client was given.
pub record AgentDeps : Type 0 where
  pub lower : String → String
  pub address_of : String → String
  pub delegated : Bool

abbrev pub signer_client : AgentDeps → Signer → Option Signer
signer_client deps signer = if deps.delegated then some signer else none

pub data Confirmation : Type 0 where
  confirmed : Confirmation
  no_agent : Confirmation
  address_mismatch : Confirmation

abbrev pub Agents : Type 0 → Type 0
Agents N = Dict String (AgentRecord N)

abbrev pub derive_key_id : AgentDeps → String → String
derive_key_id deps owner = "agent:" ++ deps.lower owner

abbrev pub new_agent :
    {N : Type 0} → String → String → Option String → Option String → AgentRecord N
new_agent owner address private_key key_id = record {
  owner = owner;
  agent_address = address;
  private_key = private_key;
  key_id = key_id;
  approved = false;
  valid_until = none;
}

module _ {N : Type 0} (deps : AgentDeps) where
  open deps use {lower}

  unfoldable pub get_agent : String → Agents N → Option (AgentRecord N)
  get_agent owner agents = lookup (lower owner) agents

  unfoldable pub set_agent : AgentRecord N → Agents N → Agents N
  set_agent rec agents = insert (lower rec.owner) rec agents

  unfoldable pub revoke : String → Agents N → Agents N
  revoke owner agents = erase (lower owner) agents

  abbrev pub remote_key : String → Agents N → Outcome String → Outcome String × Agents N
  remote_key owner agents thrown = (thrown, agents)
  remote_key owner agents (ok address) = (
    ok address,
    set_agent (new_agent owner address none (some (derive_key_id deps owner))) agents,
  )

  -- A new key, at the signer or drawn here, for an owner with no agent that waits for approval.
  abbrev pub new_key : Option Signer → String → String → Agents N → Outcome String × Agents N
  new_key none drawn owner agents =
      let address = deps.address_of drawn in
      (ok address, set_agent (new_agent owner address (some drawn) none) agents)
  new_key (some create_key) drawn owner agents =
      remote_key owner agents (create_key (derive_key_id deps owner) owner)

  unfoldable pub provision : Signer → String → String → Agents N → Outcome String × Agents N
  unfolding get_agent set_agent
  provision signer drawn owner agents = elim (get_agent owner agents) [
    | none ↦ new_key (signer_client deps signer) drawn owner agents
    | some existing ↦
        if not existing.approved
        then (ok existing.agent_address, agents)
        else new_key (signer_client deps signer) drawn owner agents
  ]

  unfoldable pub confirm : String → String → N → Agents N → Confirmation × Agents N
  unfolding get_agent set_agent
  confirm owner agent_address valid_until agents = elim (get_agent owner agents) [
    | none ↦ (Confirmation.no_agent, agents)
    | some rec ↦
        if lower rec.agent_address == lower agent_address
        then (
          Confirmation.confirmed,
          set_agent (record rec { approved = true; valid_until = some valid_until }) agents,
        )
        else (Confirmation.address_mismatch, agents)
  ]

  unfoldable pub private_key_for : String → Agents N → Option String
  unfolding get_agent
  private_key_for owner agents = elim (get_agent owner agents) [
    | none ↦ none
    | some rec ↦ rec.private_key
  ]

  unfoldable pub key_id_for : String → Agents N → Option String
  unfolding get_agent
  key_id_for owner agents = elim (get_agent owner agents) [ none ↦ none | some rec ↦ rec.key_id ]

module _ {N : Type 0} ⦃num : Number N⦄ (deps : AgentDeps) where
  open num use {le}

  abbrev pub expired : Option N → N → Bool
  expired none now = false
  expired (some until) now = le until now

  unfoldable pub agent_status : String → N → Agents N → AgentStatus N
  unfolding get_agent
  agent_status owner now agents = elim (get_agent deps owner agents) [
    | none ↦ record { approved = false; agent_address = none; valid_until = none }
    | some rec ↦ record {
      approved = rec.approved && not (expired rec.valid_until now);
      agent_address = some rec.agent_address;
      valid_until = rec.valid_until;
    }
  ]
