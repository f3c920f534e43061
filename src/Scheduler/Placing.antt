-- ===== src/Scheduler/Placing.antt =====
-- One order of a step in server/src/engine/scheduler.ts, and what is written once it is confirmed.
use hyper_solid.Prelude.{
  String, Bool, true, false, ◌≡◌, refl, ap, sym, subst, ◌∙◌, ◌⊎◌, inl, inr, ◌∷◌, arith, Bool-cases,
}
use hyper_solid.Number.{Number}
use hyper_solid.Strategies.Types.{Side, Strategy}
use hyper_solid.Strategies.Store.{Store}
use hyper_solid.Scheduler.Context.{Outcome, ok, thrown, Context, PlaceRequest, PlaceResult}
use hyper_solid.Scheduler.Session.{
  Action, placed, Session, ◌>>=◌, ◌>>◌, on_store, when, place, record_activity,
}
use hyper_solid.Scheduler.Entries.{record_entry}

module _ {N : Type 0} where
  -- The order was answered, and filled.
  abbrev pub confirmed : Outcome (PlaceResult N) → Bool
  confirmed (ok res) = res.ok
  confirmed thrown = false

module _ {N W : Type 0} ⦃num : Number N⦄ where
  -- Statements that do not throw, send nothing, and do this to the store.
  pub record Writes (f : Store N → Store N) (m : Action N W (Unit {0})) : Type 0 where
    pub done : (z : Session N W) → (m z).0 ≡ ok tt
    pub sent : (z : Session N W) → (m z).1.sent ≡ z.sent
    pub store : (z : Session N W) → (m z).1.store ≡ f z.store

  pub on_store-Writes : (f : Store N → Store N) → Writes f (on_store f)
  on_store-Writes f = record { done = λ z. refl; sent = λ z. refl; store = λ z. refl }

  pub record_entry-Writes :
      (cx : Context N W) (s : Strategy N) (coin : String) (side : Side) (res : PlaceResult N)
      → Writes (λ st. st) (record_entry cx s coin side res)
  unfolding record_entry record_activity
  record_entry-Writes cx s coin side res = record {
    done = λ z. ground arith;
    sent = λ z. ground arith;
    store = λ z. ground arith;
  }

  then_same :
      (f : Store N → Store N) (m n : Action N W (Unit {0})) (z : Session N W)
      → Writes f m
      → (m >> n) z ≡ n (m z).1
  then_same f m n z h =
      ap (λ o. elim o [ ok a ↦ n (m z).1 | thrown ↦ (thrown, (m z).1) ]) (h.done z)

  pub >>-Writes :
      (f g : Store N → Store N) (m n : Action N W (Unit {0}))
      → Writes f m
      → Writes g n
      → Writes (λ st. g (f st)) (m >> n)
  >>-Writes f g m n h k = record {
    done = λ z. ap (λ r. r.0) (then_same f m n z h) ∙ k.done (m z).1;
    sent = λ z. ap (λ r. r.1.sent) (then_same f m n z h) ∙ (k.sent (m z).1 ∙ h.sent z);
    store = λ z. ap (λ r. r.1.store) (then_same f m n z h) ∙ (k.store (m z).1 ∙ ap g (h.store z));
  }

  -- The order is sent, once, from a world. The store is as it was unless the order is confirmed, and
  -- then it has what is to be written.
  abbrev pub Placed :
      Context N W
      → PlaceRequest N
      → W
      → (PlaceResult N → Store N → Type 0)
      → Session N W
      → Session N W
      → Type 0
  Placed cx req w Written y z =
      (z.sent ≡ placed req ∷ y.sent)
      × (((confirmed (cx.place req w).0 ≡ false) × (z.store ≡ y.store))
          ⊎ ((res : PlaceResult N) × ((cx.place req w).0 ≡ ok res)
              × (res.ok ≡ true)
              × Written res z.store))

  abbrev pub placing :
      Context N W → PlaceRequest N → (PlaceResult N → Action N W (Unit {0})) → Action N W (Unit {0})
  placing cx req after = place cx req >>= λ res. when res.ok (after res)

  abbrev continued :
      (PlaceResult N → Action N W (Unit {0}))
      → Outcome (PlaceResult N)
      → Session N W
      → Outcome (Unit {0}) × Session N W
  continued after r y = elim r [ ok res ↦ when res.ok (after res) y | thrown ↦ (thrown, y) ]

  module _ (req : PlaceRequest N) (after : PlaceResult N → Action N W (Unit {0}))
      (f : PlaceResult N → Store N → Store N) (Written : PlaceResult N → Store N → Type 0)
      (h : (res : PlaceResult N) → Writes (f res) (after res)) where
    -- An answer to the order, with the session right after it.
    answered :
        (r : Outcome (PlaceResult N)) (y y' : Session N W)
        → y'.sent ≡ placed req ∷ y.sent
        → y'.store ≡ y.store
        → ((res : PlaceResult N) → Written res (f res y.store))
        → (let z = (continued after r y').1 in
            (z.sent ≡ placed req ∷ y.sent)
            × (((confirmed r ≡ false) × (z.store ≡ y.store))
                ⊎ ((res : PlaceResult N) × (r ≡ ok res) × (res.ok ≡ true) × Written res z.store)))
    answered thrown y y' sent same k = (sent, inl (refl, same))
    answered (ok res) y y' sent same k = elim (Bool-cases res.ok) [
      | inr bad ↦
          let m : when res.ok (after res) y' ≡ (ok tt, y') = ap (λ b. when b (after res) y') bad in
          (ap (λ r. r.1.sent) m ∙ sent, inl (bad, ap (λ r. r.1.store) m ∙ same))
      | inl good ↦
          let m : when res.ok (after res) y' ≡ after res y' =
            ap (λ b. when b (after res) y') good in
          (
            ap (λ r. r.1.sent) m ∙ ((h res).sent y' ∙ sent),
            inr (
              res,
              refl,
              good,
              subst (Written res)
                  (sym (ap (λ r. r.1.store) m ∙ ((h res).store y' ∙ ap (f res) same))) (k res),
            ),
          )
    ]

    pub placing-Placed :
        (cx : Context N W) (y : Session N W)
        → ((res : PlaceResult N) → Written res (f res y.store))
        → Placed cx req y.world Written y (placing cx req after y).1
    unfolding place
    placing-Placed cx y k = answered (cx.place req y.world).0 y (place cx req y).1 refl refl k
