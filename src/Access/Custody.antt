-- ===== src/Access/Custody.antt =====
-- The agents of server/src/agent/agentManager.ts: who holds their keys, and when they may trade.
use hyper_solid.Prelude.{
  String, true, false, not, ◌≡◌, refl, ◌⊎◌, inl, inr, Option, none, some, List, [], ◌∷◌, All,
  All-insert, lookup-insert, All-erase, All-lookup, Given, subst, string_eq, ◌==◌, Bool-cases,
  Option-cases, is_some,
}
use hyper_solid.Number.{Number}
use hyper_solid.Scheduler.Context.{Outcome, ok, thrown}
use hyper_solid.Access.Agents.{
  derive_key_id, AgentRecord, Signer, signer_client, AgentDeps, Agents, Confirmation, get_agent,
  set_agent, revoke, new_agent, new_key, remote_key, provision, confirm, agent_status,
}

-- The calls that change the agents; a provision carries what the signer answers to it and the key that
-- is drawn for it.
pub data AgentCall (N : Type 0) : Type 0 where
  provisions : Signer → String → String → AgentCall N
  confirms : String → String → N → AgentCall N
  revokes : String → AgentCall N

module _ {N : Type 0} (deps : AgentDeps) where
  abbrev pub run_call : AgentCall N → Agents N → Agents N
  run_call (AgentCall.provisions signer drawn owner) agents =
      (provision deps signer drawn owner agents).1
  run_call (AgentCall.confirms owner address until) agents =
      (confirm deps owner address until agents).1
  run_call (AgentCall.revokes owner) agents = revoke deps owner agents

  abbrev pub run_calls : List (AgentCall N) → Agents N → Agents N
  run_calls [] agents = agents
  run_calls (c ∷ cs) agents = run_calls cs (run_call c agents)

  -- The key is here or at the signer, and not both; only a confirmed agent has a time that it ends.
  pub record Custody (rec : AgentRecord N) : Type 0 where
    pub one_key : is_some rec.private_key ≡ not (is_some rec.key_id)
    pub approved_until : rec.approved ≡ is_some rec.valid_until

  abbrev pub Custodies : Agents N → Type 0
  Custodies agents = All (λ kv. Custody kv.1) agents

  found_Custody :
      (owner : String) (agents : Agents N) (rec : AgentRecord N)
      → get_agent deps owner agents ≡ some rec
      → Custodies agents
      → Custody rec
  unfolding get_agent
  found_Custody owner agents rec found h =
      subst (Given Custody) found (All-lookup Custody (deps.lower owner) agents h)

  remote_key-Custodies :
      (owner : String) (agents : Agents N) (answer : Outcome String)
      → Custodies agents
      → Custodies (remote_key deps owner agents answer).1
  unfolding set_agent
  remote_key-Custodies owner agents thrown h = h
  remote_key-Custodies owner agents (ok address) h =
      All-insert Custody _ (new_agent owner address none (some (derive_key_id deps owner))) agents
        (record { one_key = refl; approved_until = refl }) h

  new_key-Custodies :
      (o : Option Signer) (drawn owner : String) (agents : Agents N)
      → Custodies agents
      → Custodies (new_key deps o drawn owner agents).1
  unfolding set_agent
  new_key-Custodies none drawn owner agents h =
      All-insert Custody _ (new_agent owner (deps.address_of drawn) (some drawn) none) agents
        (record { one_key = refl; approved_until = refl }) h
  new_key-Custodies (some create_key) drawn owner agents h =
      remote_key-Custodies owner agents (create_key (derive_key_id deps owner) owner) h

  provision-Custodies :
      (signer : Signer) (drawn owner : String) (agents : Agents N)
      → Custodies agents
      → Custodies (provision deps signer drawn owner agents).1
  unfolding provision
  provision-Custodies signer drawn owner agents h =
      elim (Option-cases (get_agent deps owner agents)) [
        | inl missing ↦
            rw (provision, missing)
              (new_key-Custodies (signer_client deps signer) drawn owner agents h)
        | inr (rec, found) ↦ elim (Bool-cases rec.approved) [
          | inl approved ↦
              rw (provision, found, approved)
                (new_key-Custodies (signer_client deps signer) drawn owner agents h)
          | inr waiting ↦ rw (provision, found, waiting) h
        ]
      ]

  approve-Custody :
      (rec : AgentRecord N) (until : N)
      → Custody rec
      → Custody (record rec { approved = true; valid_until = some until })
  approve-Custody rec until h = record { one_key = h.one_key; approved_until = refl }

  confirm-Custodies :
      (owner address : String) (until : N) (agents : Agents N)
      → Custodies agents
      → Custodies (confirm deps owner address until agents).1
  unfolding set_agent confirm
  confirm-Custodies owner address until agents h =
      elim (Option-cases (get_agent deps owner agents)) [
        | inl missing ↦ rw (confirm, missing) h
        | inr (rec, found) ↦
            elim (Bool-cases (deps.lower rec.agent_address == deps.lower address)) [
              | inl same ↦
                  rw (confirm, found, same)
                    (All-insert Custody _ _ agents
                      (approve-Custody rec until (found_Custody owner agents rec found h)) h)
              | inr other ↦ rw (confirm, found, other) h
            ]
      ]

  run_call-Custodies :
      (c : AgentCall N) (agents : Agents N) → Custodies agents → Custodies (run_call c agents)
  unfolding revoke
  run_call-Custodies (AgentCall.provisions signer drawn owner) agents h =
      provision-Custodies signer drawn owner agents h
  run_call-Custodies (AgentCall.confirms owner address until) agents h =
      confirm-Custodies owner address until agents h
  run_call-Custodies (AgentCall.revokes owner) agents h =
      All-erase Custody (deps.lower owner) agents h

  -- Whatever is provisioned, confirmed and revoked, and whatever the signer answers to each provision,
  -- each agent's key is either here or at the signer and never both, and just the agents that their
  -- owner confirmed have a time at which they end.
  pub run_calls-Custodies :
      (cs : List (AgentCall N)) (agents : Agents N)
      → Custodies agents
      → Custodies (run_calls cs agents)
  run_calls-Custodies [] agents h = h
  run_calls-Custodies (c ∷ cs) agents h =
      run_calls-Custodies cs (run_call c agents) (run_call-Custodies c agents h)

module _ {N : Type 0} ⦃num : Number N⦄ (deps : AgentDeps) where
  open num use {le}

  get_agent-set_agent :
      (owner : String) (rec : AgentRecord N) (agents : Agents N)
      → deps.lower rec.owner ≡ deps.lower owner
      → get_agent deps owner (set_agent deps rec agents) ≡ some rec
  unfolding get_agent set_agent
  get_agent-set_agent owner rec agents own =
      rw
        (
          lookup-insert (deps.lower rec.owner) (deps.lower owner) rec agents,
          (string_eq.same_iff _ _).1 own,
        )
        refl

  -- Once the owner confirms the agent that waits for it, the agent trades until the time of the
  -- approval and not from then on; a confirmation of another address changes nothing.
  pub agent_status-confirm :
      (owner address : String) (until now : N) (agents : Agents N) (rec : AgentRecord N)
      → get_agent deps owner agents ≡ some rec
      → deps.lower rec.owner ≡ deps.lower owner
      → (let answer = confirm deps owner address until agents in
          ((deps.lower rec.agent_address == deps.lower address) ≡ true)
            × (answer.0 ≡ Confirmation.confirmed)
            × ((agent_status deps owner now answer.1).approved ≡ not (le until now))
          ⊎ (((deps.lower rec.agent_address == deps.lower address) ≡ false)
              × (answer.0 ≡ Confirmation.address_mismatch)
              × (answer.1 ≡ agents)))
  unfolding confirm agent_status
  agent_status-confirm owner address until now agents rec found own =
      elim (Bool-cases (deps.lower rec.agent_address == deps.lower address)) [
        | inl same ↦ inl (
          same,
          rw (confirm, found, same) refl,
          rw
              (
                confirm,
                found,
                same,
                agent_status,
                get_agent-set_agent owner (record rec { approved = true; valid_until = some until })
                    agents own,
              )
              refl,
        )
        | inr other ↦ inr (other, rw (confirm, found, other) refl, rw (confirm, found, other) refl)
      ]
