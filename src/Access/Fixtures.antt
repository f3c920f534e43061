-- ===== src/Access/Fixtures.antt =====
-- A concrete token format, signer and clock for server/src/auth.
use Prim.Native.String.{◌++◌, slice, len, find}
use hyper_solid.Prelude.{false, String, ◌+◌, none, some, [], ◌∷◌, string_eq, ◌==◌, if◌then◌else◌}
use hyper_solid.Number.{Cents, pos, cents_number}
use hyper_solid.Scheduler.Context.{ok}
use hyper_solid.Access.Token.{TokenCodec, Payload}
use hyper_solid.Access.Sessions.{AuthOptions}
use hyper_solid.Access.Agents.{AgentDeps}

-- The text before the first dot, and the text after it.
abbrev pub before_dot : String → String
before_dot s = slice s 0 (find s ".")

abbrev pub past_dot : String → String
past_dot s = slice s (find s "." + 1) (len s)

abbrev pub payload : Payload Cents
payload = record { sub = "0xa"; exp = pos 60 }

abbrev pub codec : TokenCodec Cents
codec = record {
  header = "h";
  encode = λ p. p.sub ++ "-60";
  decode = λ s. if s == "0xa-60" then some payload else none;
  hmac = λ signed secret. secret ++ ("/" ++ slice signed 0 1);
  split = λ s. before_dot s ∷ before_dot (past_dot s) ∷ past_dot (past_dot s) ∷ [];
  lower = λ s. if s == "0xA" then "0xa" else s;
}

abbrev pub options : AuthOptions Cents
options = record {
  secret = "k";
  nonce_ttl_ms = pos 30;
  session_ttl_ms = pos 50;
  codec = codec;
  verify_message = λ address message signature. ok (signature == "sig");
}

abbrev pub agent_deps : AgentDeps
agent_deps = record { lower = codec.lower; address_of = λ k. "@" ++ k; delegated = false }
