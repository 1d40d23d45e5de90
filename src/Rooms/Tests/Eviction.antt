-- ===== src/Rooms/Tests/Eviction.antt =====
-- Runs of the evictions after a reorganisation.
use superhero_api.Base.{false, some, [], ◌∷◌, ◌≡◌, refl, arith, All}
use superhero_api.Base.Pages.{pages, order_by}
use superhero_api.Rooms.Store.{added, Membership, World}
use superhero_api.Rooms.Config.{is_configured_admin}
use superhero_api.Rooms.Eviction.{flush_due_evictions, flush_row, flush_fresh, is_due_eviction}
use superhero_api.Rooms.Eviction.Flush.Drained.{flush_due_evictions-All}
use superhero_api.Rooms.Tests.{settings, fresh_row, world}

-- A published member who dropped below the threshold before a reorganisation.
abbrev dropped : Membership
dropped = record (fresh_row 1 5) { eligible = false; relay_state = added }

abbrev forked : World
forked = record world { memberships = dropped ∷ fresh_row 2 6 ∷ [] }

abbrev confirmed : World
confirmed = record forked {
  memberships = record dropped { held_until_height = some 40 } ∷ fresh_row 2 6 ∷ [];
}

flush_publishes : (flush_due_evictions settings confirmed).published ≡ 1
unfolding flush_due_evictions pages order_by flush_row flush_fresh is_configured_admin
flush_publishes = refl

flush_due_evictions-All_example :
    All
      (λ m. is_due_eviction 40 m ≡ false)
      (flush_due_evictions settings confirmed).world.memberships
flush_due_evictions-All_example =
    flush_due_evictions-All settings 40 confirmed (ground arith) (ground arith) (ground arith) refl
