-- ===== src/Rooms/Sync/Scan.antt =====
-- The room-scoped drain and the periodic scan of membership-sync.service.ts: cursor loops over the
-- pending rows, by id.
pub mod Complete
use superhero_api.Base.{
  ℕ, suc, Bool, not, ◌&&◌, ◌||◌, Option, none, some, List, [], ◌∷◌, ◌==◌, if◌then◌else◌, is_some,
  length, find, select,
}
use superhero_api.Base.Pages.{order_by, pages}
use superhero_api.Rooms.Store.{
  pending_add, pending_remove, relay_eq, Room, Membership, World, find_room, find_token,
  group_id_for,
}
use superhero_api.Rooms.Config.{Config}
use superhero_api.Rooms.Rows.{row_id}
use superhero_api.Rooms.Sync.{room_confirmed_created, is_deleted, publish_pending}

-- The loop's world, with the count that it returns.
pub record Published : Type 0 where
  pub world : World
  pub published : ℕ

abbrev pub count_sent : ℕ → World × Bool → Published
count_sent n (w, sent) = record { world = w; published = if sent then suc n else n }

abbrev pub is_pending : Membership → Bool
is_pending m = relay_eq m.relay_state pending_add || relay_eq m.relay_state pending_remove

abbrev pub pending_in : ℕ → Published → List Membership
pending_in sale s =
    order_by row_id (select (λ m. m.sale_address == sale && is_pending m) s.world.memberships)

abbrev pub publish_next : Config → ℕ → Option Room → ℕ → Published → Membership → Published
publish_next c now room group s row =
    count_sent s.published (publish_pending c now row room group s.world)

-- publishPendingForRoom. The fuel covers a page for each row.
unfoldable pub publish_pending_for_room : Config → ℕ → ℕ → World → Published
publish_pending_for_room c now sale w =
    let token = find_token sale w in
    let room = find_room sale w in
    let start : Published = record { world = w; published = 0 } in
    if not (room_confirmed_created token)
    then start
    else if is_deleted room
    then start
    else pages row_id (pending_in sale) (publish_next c now room (group_id_for sale token))
        c.reconcile_batch_size (suc (length w.memberships)) 0 start

-- The handler of tgr.room.created.
unfoldable pub on_room_created : Config → ℕ → ℕ → World → World
on_room_created c now sale w =
    if sale == 0 then w else (publish_pending_for_room c now sale w).world

-- What the scan remembers of a room: the entries of its three maps, which it sets together.
pub record Entry : Type 0 where
  pub sale : ℕ
  pub ready : Bool
  pub room : Option Room
  pub group : ℕ

abbrev pub fresh_entry : ℕ → World → Entry
fresh_entry sale w = record {
  sale = sale;
  ready = room_confirmed_created (find_token sale w) && not (is_deleted (find_room sale w));
  room = find_room sale w;
  group = group_id_for sale (find_token sale w);
}

pub record Scan : Type 0 where
  pub progress : Published
  pub cache : List Entry

abbrev pub entry_for : ℕ → Scan → Entry
entry_for sale s = elim (find (λ (e : Entry). e.sale == sale) s.cache) [
  | none ↦ fresh_entry sale s.progress.world
  | some e ↦ e
]

abbrev pub remember : ℕ → Scan → List Entry
remember sale s = elim (find (λ (e : Entry). e.sale == sale) s.cache) [
  | none ↦ fresh_entry sale s.progress.world ∷ s.cache
  | some e ↦ s.cache
]

abbrev pub publish_if_ready : Config → ℕ → Entry → Membership → Published → Published
publish_if_ready c now e row s = if e.ready then publish_next c now e.room e.group s row else s

unfoldable pub scan_row : Config → ℕ → Scan → Membership → Scan
scan_row c now s row = record {
  progress = publish_if_ready c now (entry_for row.sale_address s) row s.progress;
  cache = remember row.sale_address s;
}

-- Only rows that can be published: an add needs its pubkey.
abbrev pub publishable_rows : Scan → List Membership
publishable_rows s = order_by row_id (
    select (λ m. is_pending m && (is_some m.member_pubkey || relay_eq m.relay_state pending_remove))
      s.progress.world.memberships)

-- scanAndPublishPending
unfoldable pub scan_and_publish_pending : Config → ℕ → World → Scan
unfolding scan_row
scan_and_publish_pending c now w =
    pages row_id publishable_rows (scan_row c now) c.reconcile_batch_size
      (suc (length w.memberships)) 0
      (record { progress = record { world = w; published = 0 }; cache = [] })
