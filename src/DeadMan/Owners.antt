-- ===== src/DeadMan/Owners.antt =====
-- Which owners server/src/engine/deadMan.ts clears on startup.
use hyper_solid.Prelude.{
  String, true, not, ◌&&◌, ◌≡◌, List, string_eq, has, has-dedup, has-keep, distinct, distinct-dedup,
  distinct-keep, dedup, ◌∙◌, ap,
}
use hyper_solid.DeadMan.Heartbeat.{stale_dead_man_owners}

-- An owner is cleared on startup exactly if something of his runs and he is not opted in, and none is
-- cleared twice.
pub stale_owners :
    (running_owners opted_in_owners : List String) (owner : String)
    → (has owner (stale_dead_man_owners running_owners opted_in_owners)
        ≡ (has owner running_owners && not (has owner opted_in_owners)))
      × (distinct (stale_dead_man_owners running_owners opted_in_owners) ≡ true)
unfolding stale_dead_man_owners
stale_owners running_owners opted_in_owners owner = (
  has-keep (λ o. not (has o opted_in_owners)) owner (dedup running_owners)
      ∙ ap (λ b. b && not (has owner opted_in_owners)) (has-dedup owner running_owners),
  distinct-keep _ (dedup running_owners) (distinct-dedup running_owners),
)
