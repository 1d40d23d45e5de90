-- ===== src/Rooms/Tests/Sync.antt =====
-- Runs of the publisher and of its ACKs.
use superhero_api.Base.{true, false, some, [], ◌∷◌, ◌≡◌, refl, ap, arith, All, find}
use superhero_api.Base.Pages.{each, above, pages, order_by}
use superhero_api.Rooms.Missing.{is_missing}
use superhero_api.Rooms.Sync.{publish_role_change, publish_role}
use superhero_api.Rooms.Sync.Roles.{IsRoleJob, publish_role_change-Publishes}
use superhero_api.Rooms.Store.{
  admin, added, World, removed, find_member, find_room, find_token, is_member, group_id_for,
}
use superhero_api.Rooms.Rows.{row_id}
use superhero_api.Rooms.Access.{record_access_transition, arm}
use superhero_api.Rooms.Access.Ledger.{IsLedgered}
use superhero_api.Rooms.Access.Finalize.{IsKeyed}
use superhero_api.Rooms.Access.{or_access_lost}
use superhero_api.Rooms.Access.Flap.{record_access_transition_flap}
use superhero_api.Rooms.Nip29.{delete_group}
use superhero_api.Rooms.Store.{relay_eq}
use superhero_api.Base.{◌==◌, ◌&&◌, not}
use superhero_api.Rooms.Sync.{on_publish_ack, handle_deleted_room, new_job}
use superhero_api.Rooms.Sync.Ack.{on_publish_ack_idempotent}
use superhero_api.Rooms.Sync.Ack.Ledgered.{on_publish_ack-IsLedgered}
use superhero_api.Rooms.Sync.Deleted.{others, handle_deleted_room_lem}
use superhero_api.Rooms.Sync.{
  publish_pending, maybe_enqueue_add, maybe_enqueue_remove, room_confirmed_created, is_deleted,
  publish_for_row,
}
use superhero_api.Rooms.Sync.Justified.{
  Justified, Publishes, LeavesTables, publish_for_row-Publishes,
}
use superhero_api.Rooms.Sync.Scan.{Published, publishable_rows, scan_and_publish_pending}
use superhero_api.Rooms.Sync.Scan.Complete.{scan_directly, scan_and_publish_pending_complete}
use superhero_api.Rooms.Tests.{
  settings, fresh_row, world, world_ids, world-IsLedgered, joined, joined-IsLedgered, joined-rows,
  member_row,
}

publish_for_row-Publishes_example :
    Publishes
      (λ job.
        (is_deleted (find_room 1 world) ≡ false)
        × Justified settings
            (find_room 1 world)
            (group_id_for 1 (find_token 1 world))
            (fresh_row 1 5)
            job)
      world
      (publish_for_row settings 4 (fresh_row 1 5) world)
    × LeavesTables world (publish_for_row settings 4 (fresh_row 1 5) world).0
publish_for_row-Publishes_example = publish_for_row-Publishes settings 4 (fresh_row 1 5) world

world_created : room_confirmed_created (find_token 1 world) ≡ true
unfolding room_confirmed_created
world_created = refl

abbrev unpublished : Published
unpublished = record { world = world; published = 0 }

-- Three members in pages of two: each is published.
scan_counts : (scan_and_publish_pending settings 4 world).progress.published ≡ 3
unfolding scan_and_publish_pending publish_pending maybe_enqueue_add maybe_enqueue_remove pages
    order_by room_confirmed_created is_missing
scan_counts = refl

scan_and_publish_pending_complete_example :
    (scan_and_publish_pending settings 4 world).progress
    ≡ each
        (scan_directly settings 4 world)
        unpublished
        (above row_id 0 (publishable_rows (record { progress = unpublished; cache = [] })))
scan_and_publish_pending_complete_example =
    scan_and_publish_pending_complete settings 4 world (ground arith) world_ids

record_access_transition_flap_example :
    let armed = arm 30 (or_access_lost "eligibility_lost") member_row in
    let w' = record_access_transition 30 member_row false "eligibility_lost" joined in
    (find_member 1 5 w' ≡ some armed)
    × (record_access_transition 40 armed true "access_gained" w' ≡ joined)
record_access_transition_flap_example =
    record_access_transition_flap 30 40 member_row "eligibility_lost" "access_gained" joined
      joined-IsLedgered.ids (ap (find (is_member 1 5)) joined-rows) refl refl refl

on_publish_ack_idempotent_example :
    on_publish_ack 60 4 1 9000 (some 505) true (on_publish_ack 50 0 1 9000 (some 505) true world)
    ≡ on_publish_ack 50 0 1 9000 (some 505) true world
on_publish_ack_idempotent_example =
    on_publish_ack_idempotent 50 60 0 4 1 9000 (some 505) true world refl (ground arith)

world-IsKeyed : IsKeyed world
world-IsKeyed = (
  record { current = fresh_row 1 5; found = refl; same_id = refl },
  (
    record { current = fresh_row 2 6; found = refl; same_id = refl },
    (record { current = fresh_row 3 7; found = refl; same_id = refl }, tt),
  ),
)

on_publish_ack-IsLedgered_example : IsLedgered (on_publish_ack 50 0 1 9000 (some 505) true world)
on_publish_ack-IsLedgered_example =
    on_publish_ack-IsLedgered 50 0 1 9000 (some 505) true world world-IsKeyed world-IsLedgered

handle_deleted_room_lem_example :
    let w' = handle_deleted_room 80 1 world in
    (w'.queue ≡ new_job (delete_group 1) 1 1 "membership:community-deleted" ∷ [])
    × All
        (λ m. (m.sale_address == 1 && not (relay_eq m.relay_state removed)) ≡ false)
        w'.memberships
    × (others 1 w'.memberships ≡ [])
    × (w'.emitted ≡ [])
    × (w'.ledger ≡ [])
handle_deleted_room_lem_example = handle_deleted_room_lem 80 1 world world_ids

abbrev promoted : World
promoted = record world {
  memberships = record (fresh_row 1 5) { role = admin; relay_state = added } ∷ [];
}

promotes_once : (publish_role_change settings 1 5 promoted).1 ≡ true
unfolding publish_role_change publish_role
promotes_once = refl

publish_role_change-Publishes_example :
    Publishes (IsRoleJob settings 1 5 promoted) promoted (publish_role_change settings 1 5 promoted)
publish_role_change-Publishes_example = publish_role_change-Publishes settings 1 5 promoted
