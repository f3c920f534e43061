-- ===== src/Access.antt =====
-- server/src/auth and server/src/agent/agentManager.ts: sessions, and the agents that trade for owners.
pub mod Token
pub mod Sessions
pub mod Challenges
pub mod Agents
pub mod Custody
pub mod Fixtures
mod Tests
