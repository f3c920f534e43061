-- ===== src/Access/Challenges.antt =====
-- What the challenges of server/src/auth/auth.ts stand for: each is good for one session, and those
-- that are kept are not over.
use hyper_solid.Prelude.{
  String, Bool, true, false, ◌≡◌, refl, ap, sym, ◌∙◌, inl, inr, none, some, [], ◌∷◌, All, lookup,
  erase, lookup-erase, lookup-insert_self, All-insert, string_eq, Bool-cases, Option-cases, arith,
}
use hyper_solid.Number.{Number}
use hyper_solid.Scheduler.Context.{Outcome, ok, thrown}
use hyper_solid.Access.Token.{issue_token}
use hyper_solid.Access.Sessions.{
  AuthOptions, Challenge, SessionAnswer, Pending, key, sweep, challenge, session, signed_in,
}

abbrev token_of : SessionAnswer → String
token_of (SessionAnswer.session_token t) = t
token_of _ = ""

module _ {N : Type 0} ⦃num : Number N⦄ where
  open num use {add, le}

  session-pending :
      (opts : AuthOptions N) (owner nonce signature : String) (now : N) (pending : Pending N)
      → (session opts owner nonce signature now pending).1 ≡ erase (key opts owner nonce) pending
  unfolding session
  session-pending opts owner nonce signature now pending =
      elim (Option-cases (lookup (key opts owner nonce) pending)) [
        | inl missing ↦ rw (missing, session) refl
        | inr (c, found) ↦ elim (Bool-cases (le c.expires_at now)) [
          | inl over ↦ rw (found, over, session) refl
          | inr good ↦ rw (found, good, session) refl
        ]
      ]

  session_missing :
      (opts : AuthOptions N) (owner nonce signature : String) (now : N) (pending : Pending N)
      → lookup (key opts owner nonce) pending ≡ none
      → (session opts owner nonce signature now pending).0 ≡ SessionAnswer.unknown_or_expired_nonce
  unfolding session
  session_missing opts owner nonce signature now pending missing = rw (missing, session) refl

  -- A nonce is good for one attempt: whatever comes of it, the next attempt with the same nonce by an
  -- owner whose address is the same in lower case is refused, at any time and with any signature.
  pub nonce_once :
      (opts : AuthOptions N) (owner again nonce signature other : String) (now later : N)
      (pending : Pending N)
      → opts.codec.lower again ≡ opts.codec.lower owner
      → (session opts again nonce other later (session opts owner nonce signature now pending).1).0
        ≡ SessionAnswer.unknown_or_expired_nonce
  nonce_once opts owner again nonce signature other now later pending same =
      session_missing opts again nonce other later _ (
        rw
          (
            session-pending opts owner nonce signature now pending,
            lookup-erase (key opts owner nonce) (key opts again nonce) pending,
            same,
            (string_eq.same_iff _ _).1 refl,
          )
          refl)

  -- No challenge's time is over.
  abbrev pub Standing : N → Pending N → Type 0
  Standing now pending = All (λ kv. le kv.1.expires_at now ≡ false) pending

  sweep-Standing : (now : N) (pending : Pending N) → Standing now (sweep now pending)
  unfolding sweep
  sweep-Standing now [] = tt
  sweep-Standing now ((k, c) ∷ pending) = elim (Bool-cases (le c.expires_at now)) [
    | inl over ↦ rw over (sweep-Standing now pending)
    | inr good ↦ rw good (good, sweep-Standing now pending)
  ]

  -- After a challenge every one that is kept is still good, where a new one does not end at once, and
  -- the new one is kept for its owner and nonce.
  pub challenge-Standing :
      (opts : AuthOptions N) (drawn owner : String) (now : N) (pending : Pending N)
      → le (add now opts.nonce_ttl_ms) now ≡ false
      → (let asked = challenge opts drawn owner now pending in
          Standing now asked.1
          × ((c : Challenge N) × (lookup (key opts owner asked.0) asked.1 ≡ some c)
              × (c.expires_at ≡ add now opts.nonce_ttl_ms)))
  unfolding challenge
  challenge-Standing opts drawn owner now pending good = (
    All-insert (λ c. le c.expires_at now ≡ false) _ _ (sweep now pending) good
        (sweep-Standing now pending),
    (_, lookup-insert_self _ _ (sweep now pending), refl),
  )

  signed_in_granted :
      (opts : AuthOptions N) (owner : String) (now : N) (granted : String) (v : Outcome Bool)
      → signed_in opts owner now v ≡ SessionAnswer.session_token granted
      → (v ≡ ok true) × (granted ≡ issue_token opts.codec owner opts.secret now opts.session_ttl_ms)
  signed_in_granted opts owner now granted thrown e = ground arith
  signed_in_granted opts owner now granted (ok true) e = (refl, sym (ap token_of e))
  signed_in_granted opts owner now granted (ok false) e = ground arith

  -- A session is granted only for a challenge that stands, to an owner whose signature of the nonce
  -- verifies, and its token is the one issued to that owner at that time.
  pub session_granted :
      (opts : AuthOptions N) (owner nonce signature : String) (now : N) (pending : Pending N)
      (granted : String)
      → (session opts owner nonce signature now pending).0 ≡ SessionAnswer.session_token granted
      → (opts.verify_message owner nonce signature ≡ ok true)
        × (granted ≡ issue_token opts.codec owner opts.secret now opts.session_ttl_ms)
        × ((c : Challenge N) × (lookup (key opts owner nonce) pending ≡ some c)
            × (le c.expires_at now ≡ false))
  unfolding session
  session_granted opts owner nonce signature now pending granted e =
      elim (Option-cases (lookup (key opts owner nonce) pending)) [
        | inl missing ↦ ground arith
        | inr (c, found) ↦ elim (Bool-cases (le c.expires_at now)) [
          | inl over ↦ ground arith
          | inr good ↦
              let step : (session opts owner nonce signature now pending).0
                  ≡ signed_in opts owner now (opts.verify_message owner nonce signature) =
                rw (found, good, session) refl in
              let (valid, same) =
                signed_in_granted opts owner now granted (opts.verify_message owner nonce signature)
                  (sym step ∙ e) in
              (valid, same, (c, found, good))
        ]
      ]
