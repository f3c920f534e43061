-- ===== src/Access/Sessions.antt =====
-- server/src/auth/auth.ts: `Auth`. The pending challenges are its state; the nonce that is drawn and
-- the check of a signature are arguments.
use Prim.Native.String.{◌++◌}
use hyper_solid.Prelude.{
  ℕ, String, Bool, Option, none, some, [], ◌∷◌, Dict, lookup, insert, erase, length, string_eq,
  if◌then◌else◌,
}
use hyper_solid.Number.{Number}
use hyper_solid.Scheduler.Context.{Outcome, ok, thrown}
use hyper_solid.Access.Token.{TokenCodec, issue_token, verify_token}

pub record Challenge (N : Type 0) : Type 0 where
  pub owner : String
  pub nonce : String
  pub expires_at : N

pub record AuthOptions (N : Type 0) : Type 0 where
  pub secret : String
  pub nonce_ttl_ms : N
  pub session_ttl_ms : N
  pub codec : TokenCodec N
  -- `verifyMessageImpl`: the address, the message and the signature
  pub verify_message : String → String → String → Outcome Bool

pub data SessionAnswer : Type 0 where
  session_token : String → SessionAnswer
  unknown_or_expired_nonce : SessionAnswer
  invalid_signature : SessionAnswer
  verify_failed : SessionAnswer

abbrev pub Pending : Type 0 → Type 0
Pending N = Dict String (Challenge N)

module _ {N : Type 0} ⦃num : Number N⦄ where
  open num use {add, le}

  abbrev pub key : AuthOptions N → String → String → String
  key opts owner nonce = opts.codec.lower owner ++ ("|" ++ nonce)

  -- Drop the challenges whose time is over.
  unfoldable pub sweep : N → Pending N → Pending N
  sweep now [] = []
  sweep now ((k, c) ∷ pending) =
      let rest = sweep now pending in if le c.expires_at now then rest else (k, c) ∷ rest

  unfoldable pub challenge : AuthOptions N → String → String → N → Pending N → String × Pending N
  unfolding sweep
  challenge opts drawn owner now pending =
      let nonce = "HyperSolid strategy login: " ++ drawn in
      let asked : Challenge N = record {
        owner = opts.codec.lower owner;
        nonce = nonce;
        expires_at = add now opts.nonce_ttl_ms;
      } in
      (nonce, insert (key opts owner nonce) asked (sweep now pending))

  abbrev pub signed_in : AuthOptions N → String → N → Outcome Bool → SessionAnswer
  signed_in opts owner now thrown = SessionAnswer.verify_failed
  signed_in opts owner now (ok valid) =
      if valid
      then SessionAnswer.session_token
          (issue_token opts.codec owner opts.secret now opts.session_ttl_ms)
      else SessionAnswer.invalid_signature

  -- The challenge is used up whether the signature is good or not.
  unfoldable pub session :
      AuthOptions N → String → String → String → N → Pending N → SessionAnswer × Pending N
  session opts owner nonce signature now pending =
      let pending' = erase (key opts owner nonce) pending in
      elim (lookup (key opts owner nonce) pending) [
        | none ↦ (SessionAnswer.unknown_or_expired_nonce, pending')
        | some c ↦
            if le c.expires_at now
            then (SessionAnswer.unknown_or_expired_nonce, pending')
            else (signed_in opts owner now (opts.verify_message owner nonce signature), pending')
      ]

  unfoldable pub verify : AuthOptions N → String → N → Option String
  verify opts token now = verify_token opts.codec token opts.secret now

  unfoldable pub pending_count : Pending N → ℕ
  pending_count pending = length pending
