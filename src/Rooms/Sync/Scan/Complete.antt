-- ===== src/Rooms/Sync/Scan/Complete.antt =====
-- publishPendingForRoom and scanAndPublishPending of membership-sync.service.ts: their pages, and the
-- scan's memory of the rooms.
use superhero_api.Base.{
  ℕ, suc, ◌<◌, true, false, ◌&&◌, ◌||◌, Option, none, some, List, [], ◌∷◌, ◌≡◌, refl, ap, ◌∙◌, inl,
  inr, ◌==◌, if◌then◌else◌, is_some, length, find, select, All, All-find, Option-cases,
  find_satisfies, ==_iff,
}
use superhero_api.Base.Pages.{order_by, above, each, pages_complete}
use superhero_api.Rooms.Store.{
  relay_eq, pending_remove, Room, Membership, World, find_room, find_token, group_id_for,
}
use superhero_api.Rooms.Config.{Config}
use superhero_api.Rooms.Rows.{query-Ascends, query-length, row_id, HasIds}
use superhero_api.Rooms.Sync.{room_confirmed_created, is_deleted}
use superhero_api.Rooms.Sync.Justified.{LeavesTables, publish_pending-LeavesTables}
use superhero_api.Rooms.Sync.Scan.{
  Published, is_pending, pending_in, publish_next, publish_pending_for_room, Entry, fresh_entry,
  Scan, entry_for, publish_if_ready, scan_row, publishable_rows, scan_and_publish_pending,
}

publish_next-rows :
    (c : Config) (now : ℕ) (room : Option Room) (group : ℕ) (s : Published) (row : Membership)
    → LeavesTables s.world (publish_next c now room group s row).world
publish_next-rows c now room group s row = publish_pending-LeavesTables c now row room group s.world

-- With distinct ids and a page size that is not zero, the drain of a created, live room is one pass
-- over all its pending rows in the order of their ids.
pub publish_pending_for_room_complete :
    (c : Config) (now sale : ℕ) (w : World)
    → 0 < c.reconcile_batch_size
    → HasIds w.memberships
    → room_confirmed_created (find_token sale w) ≡ true
    → is_deleted (find_room sale w) ≡ false
    → publish_pending_for_room c now sale w
      ≡ each
          (publish_next c now (find_room sale w) (group_id_for sale (find_token sale w)))
          (record { world = w; published = 0 })
          (above row_id 0 (pending_in sale (record { world = w; published = 0 })))
unfolding publish_pending_for_room
publish_pending_for_room_complete c now sale w pos ids created live =
    rw (created, live)
      (pages_complete row_id (pending_in sale)
        (publish_next c now (find_room sale w) (group_id_for sale (find_token sale w)))
        (λ s r k _.
          ap
            (λ rows.
              above row_id k
                (order_by row_id (select (λ m. m.sale_address == sale && is_pending m) rows)))
            (publish_next-rows c now (find_room sale w) (group_id_for sale (find_token sale w)) s
              r).memberships)
        c.reconcile_batch_size (suc (length w.memberships)) 0 (record { world = w; published = 0 })
        pos (query-Ascends _ 0 w.memberships ids) (query-length _ 0 w.memberships))

-- The cached entries are what a fresh look-up in the first world gives.
abbrev IsCacheOf : World → Scan → Type 0
IsCacheOf w s =
    All (λ (e : Entry). e ≡ fresh_entry e.sale w) s.cache × LeavesTables w s.progress.world

fresh_entry-eq :
    (sale : ℕ) (w w' : World) → LeavesTables w w' → fresh_entry sale w' ≡ fresh_entry sale w
fresh_entry-eq sale w w' t = rw (t.rooms, t.tokens)

entry_for-eq :
    (w : World) (s : Scan) (sale : ℕ) → IsCacheOf w s → entry_for sale s ≡ fresh_entry sale w
entry_for-eq w s sale (h, t) = elim (Option-cases (find (λ (e : Entry). e.sale == sale) s.cache)) [
  | inl e ↦ rw (e, entry_for) (fresh_entry-eq sale w s.progress.world t)
  | inr (entry, e) ↦
      rw (e, entry_for)
        (All-find (λ (e : Entry). e ≡ fresh_entry e.sale w) (λ (e : Entry). e.sale == sale) s.cache
            entry h e
          ∙ ap (λ x. fresh_entry x w)
              ((==_iff entry.sale sale).0
                (find_satisfies (λ (e : Entry). e.sale == sale) s.cache entry e)))
]

-- The scan without its cache: each row looks its room up in the first world.
pub scan_directly : Config → ℕ → World → Published → Membership → Published
scan_directly c now w s row = publish_if_ready c now (fresh_entry row.sale_address w) row s

publish_if_ready-tables :
    (c : Config) (now : ℕ) (e : Entry) (row : Membership) (s : Published)
    → LeavesTables s.world (publish_if_ready c now e row s).world
publish_if_ready-tables c now e row s =
    elim e.ready
      as (λ b.
        LeavesTables s.world (if b then publish_next c now e.room e.group s row else s).world) [
          | true ↦ publish_next-rows c now e.room e.group s row
          | false ↦ record { memberships = refl; rooms = refl; tokens = refl }
        ]

LeavesTables-trans :
    {w w' w'' : World} → LeavesTables w w' → LeavesTables w' w'' → LeavesTables w w''
LeavesTables-trans t u = record {
  memberships = u.memberships ∙ t.memberships;
  rooms = u.rooms ∙ t.rooms;
  tokens = u.tokens ∙ t.tokens;
}

scan_row-IsCacheOf :
    (c : Config) (now : ℕ) (w : World) (s : Scan) (row : Membership)
    → IsCacheOf w s
    → IsCacheOf w (scan_row c now s row)
unfolding scan_row
scan_row-IsCacheOf c now w s row (h, t) = (
  elim (find (λ (e : Entry). e.sale == row.sale_address) s.cache)
      as (λ o.
        All (λ (e : Entry). e ≡ fresh_entry e.sale w)
          (elim o as (λ _. List Entry) [
            | none ↦ fresh_entry row.sale_address s.progress.world ∷ s.cache
            | some e ↦ s.cache
          ])) [ none ↦ (fresh_entry-eq row.sale_address w s.progress.world t, h) | some e ↦ h ],
  LeavesTables-trans t
      (publish_if_ready-tables c now (entry_for row.sale_address s) row s.progress),
)

scan_row-rows :
    (c : Config) (now : ℕ) (s : Scan) (row : Membership)
    → (scan_row c now s row).progress.world.memberships ≡ s.progress.world.memberships
unfolding scan_row
scan_row-rows c now s row =
    (publish_if_ready-tables c now (entry_for row.sale_address s) row s.progress).memberships

each-scan_row :
    (c : Config) (now : ℕ) (w : World) (rows : List Membership) (s : Scan)
    → IsCacheOf w s
    → (each (scan_row c now) s rows).progress ≡ each (scan_directly c now w) s.progress rows
unfolding scan_row scan_directly
each-scan_row c now w [] s h = refl
each-scan_row c now w (row ∷ rows) s h =
    each-scan_row c now w rows (scan_row c now s row) (scan_row-IsCacheOf c now w s row h)
    ∙ ap (λ e. each (scan_directly c now w) (publish_if_ready c now e row s.progress) rows)
        (entry_for-eq w s row.sale_address h)

-- With distinct ids and a page size that is not zero, the periodic scan publishes as one pass over
-- all publishable rows in the order of their ids would that looks each room up afresh.
pub scan_and_publish_pending_complete :
    (c : Config) (now : ℕ) (w : World)
    → 0 < c.reconcile_batch_size
    → HasIds w.memberships
    → let start : Published = record { world = w; published = 0 } in
      (scan_and_publish_pending c now w).progress
      ≡ each
          (scan_directly c now w)
          start
          (above row_id 0 (publishable_rows (record { progress = start; cache = [] })))
unfolding scan_and_publish_pending
scan_and_publish_pending_complete c now w pos ids =
    let start : Scan = record { progress = record { world = w; published = 0 }; cache = [] } in
    ap (λ (s : Scan). s.progress)
      (pages_complete row_id publishable_rows (scan_row c now)
        (λ s r k _.
          ap
            (λ rows. above row_id k (
              order_by row_id (
                select
                  (λ m.
                    is_pending m
                    && (is_some m.member_pubkey || relay_eq m.relay_state pending_remove))
                  rows)))
            (scan_row-rows c now s r))
        c.reconcile_batch_size (suc (length w.memberships)) 0 start pos
        (query-Ascends _ 0 w.memberships ids) (query-length _ 0 w.memberships))
    ∙ each-scan_row c now w (above row_id 0 (publishable_rows start)) start
        (tt, record { memberships = refl; rooms = refl; tokens = refl })
