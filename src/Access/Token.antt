-- ===== src/Access/Token.antt =====
-- server/src/auth/token.ts: the session token, `header.payload.signature`.
use Prim.Native.String.{◌++◌}
use hyper_solid.Prelude.{
  String, ◌≡◌, refl, Option, none, some, List, [], ◌∷◌, string_eq, ◌==◌, if◌then◌else◌,
}
use hyper_solid.Number.{Number}

pub record Payload (N : Type 0) : Type 0 where
  pub sub : String
  pub exp : N

-- What the token needs of the platform: the base64url text of a JSON object and back (`decode` is none
-- where the text does not parse or `exp` is no number), the HMAC, `String.prototype.split(".")` and
-- `toLowerCase`.
pub record TokenCodec (N : Type 0) : Type 0 where
  pub header : String
  pub encode : Payload N → String
  pub decode : String → Option (Payload N)
  pub hmac : String → String → String
  pub split : String → List String
  pub lower : String → String

module _ {N : Type 0} ⦃num : Number N⦄ (codec : TokenCodec N) where
  open num use {add, le}
  open codec use {header, encode, decode, hmac, split, lower}

  unfoldable pub issue_token : String → String → N → N → String
  issue_token owner secret now ttl =
      let payload = encode (record { sub = lower owner; exp = add now ttl }) in
      let signed = header ++ ("." ++ payload) in signed ++ ("." ++ hmac signed secret)

  -- The signatures are compared in constant time, which has the answer of `==`.
  abbrev pub verify_parts : List String → String → N → Option String
  verify_parts (h ∷ p ∷ s ∷ []) secret now =
      if s == hmac (h ++ ("." ++ p)) secret
      then elim (decode p) [
        | none ↦ none
        | some payload ↦ if le payload.exp now then none else some payload.sub
      ]
      else none
  verify_parts _ secret now = none

  unfoldable pub verify_token : String → String → N → Option String
  verify_token token secret now = verify_parts (split token) secret now

  -- A token verifies to its owner, in lower case, until its time is over and not from then on, where it
  -- is checked with the secret it was issued with. The token is the header, the payload and the
  -- signature of both under that secret, with dots between; it is assumed that splitting such a text
  -- at its dots gives back the three, and that the payload decodes to what was encoded.
  pub verify_token-issue_token :
      (owner secret : String) (issued ttl now : N)
      → (let payload = encode (record { sub = lower owner; exp = add issued ttl }) in
          let signature = hmac (header ++ ("." ++ payload)) secret in
          split ((header ++ ("." ++ payload)) ++ ("." ++ signature))
          ≡ header ∷ payload ∷ signature ∷ [])
      → decode (encode (record { sub = lower owner; exp = add issued ttl }))
        ≡ some (record { sub = lower owner; exp = add issued ttl })
      → verify_token (issue_token owner secret issued ttl) secret now
        ≡ (if le (add issued ttl) now then none else some (lower owner))
  unfolding verify_token issue_token
  verify_token-issue_token owner secret issued ttl now parts decoded =
      rw (parts, (string_eq.same_iff _ _).1 refl, decoded) refl
