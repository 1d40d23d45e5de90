-- ===== src/Rooms/Eviction.antt =====
-- src/token-gated-rooms/services/reorg-eviction.service.ts: after a chain reorganisation, evictions are
-- held back for a number of blocks, then published.
pub mod Buffer
pub mod Flush
use superhero_api.Base.{
  ℕ, suc, ◌+◌, Bool, false, not, ◌&&◌, ◌||◌, Option, none, some, List, [], ◌∷◌, ◌==◌, leb,
  if◌then◌else◌, is_some, length, find, select, map, dedup, lookup,
}
use superhero_api.Base.Pages.{each, order_by, pages}
use superhero_api.Rooms.Store.{
  is_admin, added, pending_remove, relay_eq, Membership, World, update_row, find_token,
  group_id_for,
}
use superhero_api.Rooms.Config.{Config, is_configured_admin}
use superhero_api.Rooms.Rows.{row_id}
use superhero_api.Rooms.Nip29.{remove_user}
use superhero_api.Rooms.Eligibility.{is_set}
use superhero_api.Rooms.Sync.{enqueue, text_of}

-- A published member, no admin, who is no longer eligible.
abbrev pub is_at_risk : Membership → Bool
is_at_risk m =
    not m.eligible
    && not (is_admin m.role)
    && (relay_eq m.relay_state added || relay_eq m.relay_state pending_remove)

abbrev pub hold : ℕ → Membership → Membership
hold height m = record m { held_until_height = some height; relay_state = added }

-- The loop's world, with the count that it returns.
pub record Buffered : Type 0 where
  pub world : World
  pub buffered : ℕ

abbrev pub buffer_row : ℕ → Buffered → Membership → Buffered
buffer_row height s row = record {
  world = update_row row.id (hold height) s.world;
  buffered = suc s.buffered;
}

unfoldable pub buffer_sale : ℕ → Buffered → ℕ → Buffered
buffer_sale height s sale =
    each (buffer_row height) s
      (select (λ m. m.sale_address == sale && is_at_risk m) s.world.memberships)

-- `[...new Set(saleAddresses.filter(Boolean))]`
abbrev pub named : List ℕ → List ℕ
named sales = dedup (select (λ a. not (a == 0)) sales)

-- bufferEvictions. Without sales there is nothing to do; without a height nothing is done.
unfoldable pub buffer_evictions : Config → List ℕ → World → Buffered
buffer_evictions c sales w = elim w.tip_height [
  | none ↦ record { world = w; buffered = 0 }
  | some tip ↦
      each (buffer_sale (tip + c.reorg_confirmation_depth_blocks))
        (record { world = w; buffered = 0 }) (named sales)
]

-- bufferAllPendingEvictions: the rooms with a row at risk that is not yet held.
unfoldable pub buffer_all_pending_evictions : Config → World → Buffered
buffer_all_pending_evictions c w =
    buffer_evictions c
      (map (λ (m : Membership). m.sale_address)
        (select (λ m. is_at_risk m && not (is_some m.held_until_height)) w.memberships))
      w

pub record Flushed : Type 0 where
  pub world : World
  pub published : ℕ
  pub cancelled : ℕ
  -- The memoized group ids.
  pub group_ids : List (ℕ × ℕ)

abbrev pub is_past : ℕ → Option ℕ → Bool
is_past tip none = false
is_past tip (some height) = leb height tip

abbrev pub is_due_eviction : ℕ → Membership → Bool
is_due_eviction tip m = is_past tip m.held_until_height && not m.eligible && not (is_admin m.role)

abbrev pub clear_hold : Membership → Membership
clear_hold m = record m { held_until_height = none }

abbrev pub start_removal : Membership → Membership
start_removal m = record m { relay_state = pending_remove; held_until_height = none }

-- resolveGroupId: a memoized id is used unless it is the empty text.
abbrev pub resolve_group_id : ℕ → Flushed → ℕ
resolve_group_id sale s =
    let known = lookup sale s.group_ids in
    if is_set known then text_of known else group_id_for sale (find_token sale s.world)

abbrev pub memoized : ℕ → Flushed → List (ℕ × ℕ)
memoized sale s =
    if is_set (lookup sale s.group_ids)
    then s.group_ids
    else (sale, resolve_group_id sale s) ∷ s.group_ids

abbrev pub cancel_eviction : Membership → Flushed → Flushed
cancel_eviction fresh s = record s {
  world = update_row fresh.id clear_hold s.world;
  cancelled = suc s.cancelled;
}

abbrev pub publish_eviction : Membership → Flushed → Flushed
publish_eviction fresh s =
    let group = resolve_group_id fresh.sale_address s in
    record {
      world = update_row fresh.id start_removal (
          enqueue (remove_user group (text_of fresh.member_pubkey)) group fresh.sale_address
            "reorg-evict" s.world);
      published = suc s.published;
      cancelled = s.cancelled;
      group_ids = memoized fresh.sale_address s;
    }

unfoldable pub flush_fresh : Config → Flushed → Membership → Flushed
flush_fresh c s fresh =
    if not (is_some fresh.held_until_height)
    then s
    else if fresh.eligible
    then cancel_eviction fresh s
    else if is_configured_admin c fresh.member_pubkey
    then cancel_eviction fresh s
    else if not (is_set fresh.member_pubkey)
    then cancel_eviction fresh s
    else publish_eviction fresh s

-- One due row, read again.
abbrev pub flush_found : Config → Flushed → Option Membership → Flushed
flush_found c s none = s
flush_found c s (some fresh) = flush_fresh c s fresh

unfoldable pub flush_row : Config → Flushed → Membership → Flushed
flush_row c s row = flush_found c s (find (λ m. m.id == row.id) s.world.memberships)

abbrev pub due_rows : ℕ → Flushed → List Membership
due_rows tip s = order_by row_id (select (is_due_eviction tip) s.world.memberships)

-- flushDueEvictions, in the worker, which has the publish queue.
unfoldable pub flush_due_evictions : Config → World → Flushed
flush_due_evictions c w =
    let start : Flushed = record { world = w; published = 0; cancelled = 0; group_ids = [] } in
    elim w.tip_height [
      | none ↦ start
      | some tip ↦
          pages row_id (due_rows tip) (flush_row c) c.reconcile_batch_size
            (suc (length w.memberships)) 0 start
    ]
