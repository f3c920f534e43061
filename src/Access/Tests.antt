-- ===== src/Access/Tests.antt =====
-- server/src/auth and server/src/agent/agentManager.ts on concrete calls.
use hyper_solid.Prelude.{true, false, ◌≡◌, refl, ◌⊎◌, none, some, List, [], ◌∷◌, lookup, string_eq}
use hyper_solid.Number.{Cents, pos, cents_number}
use hyper_solid.Scheduler.Context.{ok, thrown}
use hyper_solid.Access.Fixtures.{codec, options, agent_deps}
use hyper_solid.Access.Token.{issue_token, verify_token, verify_token-issue_token}
use hyper_solid.Access.Sessions.{Challenge, SessionAnswer, Pending, key, challenge, session}
use hyper_solid.Access.Challenges.{Standing, nonce_once, challenge-Standing, session_granted}
use hyper_solid.Access.Agents.{
  AgentDeps, AgentRecord, Confirmation, confirm, agent_status, get_agent,
}
use hyper_solid.Access.Custody.{
  AgentCall, Custodies, run_calls, run_calls-Custodies, agent_status-confirm,
}

verify_token-issue_token_example :
    verify_token codec (issue_token codec "0xA" "k" (pos 10) (pos 50)) "k" (pos 59) ≡ some "0xa"
verify_token-issue_token_example =
    verify_token-issue_token codec "0xA" "k" (pos 10) (pos 50) (pos 59) refl refl

abbrev pending : Pending Cents
pending = ("0xa|n", record { owner = "0xa"; nonce = "n"; expires_at = pos 40 }) ∷ []

nonce_once_example :
    (session options "0xa" "n" "sig"
      (pos 11)
      (session options "0xA" "n" "bad" (pos 10) pending).1).0
    ≡ SessionAnswer.unknown_or_expired_nonce
nonce_once_example = nonce_once options "0xA" "0xa" "n" "bad" "sig" (pos 10) (pos 11) pending refl

challenge-Standing_example :
    (let asked = challenge options "r" "0xA" (pos 50) pending in
      Standing (pos 50) asked.1
      × ((c : Challenge Cents) × (lookup (key options "0xA" asked.0) asked.1 ≡ some c)
          × (c.expires_at ≡ pos 80)))
challenge-Standing_example = challenge-Standing options "r" "0xA" (pos 50) pending refl

session_granted_example :
    (options.verify_message "0xA" "n" "sig" ≡ ok true)
    × ("h.0xa-60.k/h" ≡ issue_token codec "0xA" "k" (pos 10) (pos 50))
    × ((c : Challenge Cents) × (lookup (key options "0xA" "n") pending ≡ some c)
        × (cents_number.le c.expires_at (pos 10) ≡ false))
unfolding session issue_token
session_granted_example =
    session_granted options "0xA" "n" "sig" (pos 10) pending "h.0xa-60.k/h" refl

abbrev calls : List (AgentCall Cents)
calls =
    AgentCall.provisions (λ id owner. ok "@k1") "k0" "0xA"
    ∷ AgentCall.confirms "0xa" "@k1" (pos 90)
    ∷ AgentCall.provisions (λ id owner. thrown) "k2" "0xb"
    ∷ []

abbrev remote_deps : AgentDeps
remote_deps = record agent_deps { delegated = true }

run_calls-Custodies_example : Custodies remote_deps (run_calls remote_deps calls [])
run_calls-Custodies_example = run_calls-Custodies remote_deps calls [] tt

abbrev waiting : AgentRecord Cents
waiting = record {
  owner = "0xA";
  agent_address = "@k1";
  private_key = some "k1";
  key_id = none;
  approved = false;
  valid_until = none;
}

agent_status-confirm_example :
    (let answer = confirm agent_deps "0xa" "@k1" (pos 90) (("0xa", waiting) ∷ []) in
      (true ≡ true)
        × (answer.0 ≡ Confirmation.confirmed)
        × ((agent_status agent_deps "0xa" (pos 89) answer.1).approved ≡ true)
      ⊎ ((true ≡ false)
          × (answer.0 ≡ Confirmation.address_mismatch)
          × (answer.1 ≡ ("0xa", waiting) ∷ [])))
unfolding get_agent
agent_status-confirm_example =
    agent_status-confirm agent_deps "0xa" "@k1" (pos 90) (pos 89) (("0xa", waiting) ∷ []) waiting
      refl refl
