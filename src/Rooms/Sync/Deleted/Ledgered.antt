-- ===== src/Rooms/Sync/Deleted/Ledgered.antt =====
-- handleDeletedRoom of membership-sync.service.ts and the ledger of access.
use superhero_api.Base.{ℕ, false, List, [], ◌∷◌, refl, ◌==◌, select, All, All-select}
use superhero_api.Base.Pages.{each}
use superhero_api.Rooms.Store.{removed, Membership, World, group_id_for, find_token}
use superhero_api.Rooms.Rows.{same, write}
use superhero_api.Rooms.Nip29.{delete_group}
use superhero_api.Rooms.Access.Ledger.{IsLedgered, IsSnapshot}
use superhero_api.Rooms.Access.Finalize.{IsKeyed, All-IsSnapshot-Writes}
use superhero_api.Rooms.Sync.{enqueue, publish_at, retire, handle_deleted_room}
use superhero_api.Rooms.Sync.Ack.Ledgered.{written-IsLedgered, publish_at-KeepsKey}
use superhero_api.Rooms.Sync.Deleted.{retire-Retired, is_left}

each-retire-IsLedgered :
    (now : ℕ) (todo : List Membership) (w : World)
    → All (λ row. IsSnapshot row w) todo
    → IsLedgered w
    → IsLedgered (each (retire now) w todo)
unfolding retire
each-retire-IsLedgered now [] w h v = v
each-retire-IsLedgered now (row ∷ todo) w (h, hs) v =
    let r = retire-Retired now w row in
    each-retire-IsLedgered now todo (retire now w row)
      (All-IsSnapshot-Writes todo w (retire now w row)
        (write r.change (λ m. m.id == row.id) r.is_retirement.keys r.rows) hs)
      (written-IsLedgered now (publish_at now removed) (publish_at-KeepsKey now removed) row false
        "room_deleted" w (λ m. refl) h v)

-- Over a table with its unique index, the deletion of a room keeps the ledger alternating.
handle_deleted_room-IsLedgered :
    (now sale : ℕ) (w : World)
    → IsKeyed w
    → IsLedgered w
    → IsLedgered (handle_deleted_room now sale w)
unfolding handle_deleted_room
handle_deleted_room-IsLedgered now sale w keyed v =
    let group = group_id_for sale (find_token sale w) in
    let w1 = enqueue (delete_group group) group sale "membership:community-deleted" w in
    each-retire-IsLedgered now (select (is_left sale) w.memberships) w1
      (All-IsSnapshot-Writes _ w w1 (same refl)
        (All-select (λ row. IsSnapshot row w) (is_left sale) w.memberships keyed))
      (record { ids = v.ids; alternates = v.alternates })
