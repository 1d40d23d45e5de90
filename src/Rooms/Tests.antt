-- ===== src/Rooms/Tests.antt =====
-- Runs of the token-gated rooms on a small world: one room, one moderator and two members.
mod Sync
mod Eviction
mod Publishing
mod Balances
mod Identity
use superhero_api.Base.{
  ℕ, ◌+◌, true, false, none, some, [], ◌∷◌, ◌≡◌, refl, sym, subst, ap, arith, ◌∙◌, All, find,
}
use superhero_api.Rooms.Store.{
  member, pending_add, added, pending_remove, removed, no_access, granted, Room, Membership, World,
  find_member, is_member,
}
use superhero_api.Rooms.Config.{Config}
use superhero_api.Rooms.Rows.{HasIds}
use superhero_api.Rooms.Eligibility.{wants, desired, next_relay_state, recompute_member}
use superhero_api.Rooms.Eligibility.Transition.{Wanted, next_relay_state-Wanted}
use superhero_api.Rooms.Eligibility.Recomputed.{IsRecomputed, recompute_member-IsRecomputed}
use superhero_api.Rooms.Eligibility.Announced.{Announces, recompute_member-Announces}
use superhero_api.Rooms.Access.{
  record_access_transition, finalize_due_revokes, arm, on_access_gained, on_access_lost,
  record_grant, save_event, revoke, finalize_row,
}
use superhero_api.Rooms.Access.Ledger.{start, access_of, IsLedgered, IsSnapshot}
use superhero_api.Rooms.Access.Ledger.Transition.{record_access_transition-IsLedgered}
use superhero_api.Rooms.Access.Finalize.{IsKeyed, finalize_due_revokes-IsLedgered}
use superhero_api.Base.{◌==◌, ◌&&◌}

abbrev settings : Config
settings = record {
  reconcile_batch_size = 2;
  reorg_confirmation_depth_blocks = 10;
  access_revoke_grace_sec = 60;
  publish_max_retries = 5;
  nostr_room_admins = 900 ∷ [];
  normalize = λ a. some a;
}

abbrev lounge : Room
lounge = record {
  sale_address = 1;
  token_address = 11;
  min_token_threshold = 100;
  moderators = 7 ∷ [];
  muted = 9 ∷ [];
  deleted = false;
}

abbrev fresh_row : ℕ → ℕ → Membership
fresh_row id address = record {
  id = id;
  sale_address = 1;
  member_address = address;
  member_pubkey = some (address + 500);
  role = member;
  eligible = true;
  relay_state = pending_add;
  access_state = no_access;
  access_changed_at = none;
  pending_revoke_since = none;
  pending_revoke_reason = none;
  held_until_height = none;
  last_published_at = none;
  last_reconciled_at = none;
}

abbrev world : World
world = record {
  rooms = lounge ∷ [];
  memberships = fresh_row 1 5 ∷ fresh_row 2 6 ∷ fresh_row 3 7 ∷ [];
  next_id = 4;
  balances =
      record {
        token_address = 11;
        holder_address = 5;
        balance = 250;
        updated_height = 0;
        last_reconciled_at = none;
      }
      ∷ [];
  tokens =
      record { sale_address = 1; nostr_group_id = none; room_created = true; room_id = none } ∷ [];
  pubkey_of = λ a. some (a + 500);
  tip_height = some 40;
  missing = [];
  queue = [];
  emitted = [];
  ledger = [];
  next_event = 1;
}

-- Member 6 holds nothing: the row turns to pending_remove.
recompute_member-IsRecomputed_example :
    IsRecomputed lounge 6 world
      (find_member 1 6 world)
      (find_member 1 6 (recompute_member lounge 6 none none none world).0)
recompute_member-IsRecomputed_example = recompute_member-IsRecomputed lounge 6 world

recompute_member-Announces_example :
    Announces 1 8 none
      (desired lounge 8 none (wants lounge 8 (some (some 300)) world) none)
      world
      (recompute_member lounge 8 (some none) (some (some 300)) (some none) world)
recompute_member-Announces_example =
    recompute_member-Announces lounge 8 (some none) (some (some 300)) (some none) world

world_ids : HasIds world.memberships
world_ids = ground arith

access_of_fresh : (sale address : ℕ) → no_access ≡ access_of (find_member sale address world)
access_of_fresh sale address = ground arith

world-IsLedgered : IsLedgered world
world-IsLedgered = record {
  ids = world_ids;
  alternates = λ sale address. rw (sym (access_of_fresh sale address)) start;
}

abbrev joined : World
joined = record_access_transition 20 (fresh_row 1 5) true "access_gained" world

joined-IsLedgered : IsLedgered joined
joined-IsLedgered =
    record_access_transition-IsLedgered 20 (fresh_row 1 5) true "access_gained" world
      (record { current = fresh_row 1 5; found = refl; same_id = refl }) world-IsLedgered

joined-rows :
    joined.memberships
    ≡ record (fresh_row 1 5) { access_state = granted; access_changed_at = some 20 }
      ∷ fresh_row 2 6
      ∷ fresh_row 3 7
      ∷ []
unfolding record_access_transition on_access_gained record_grant save_event
joined-rows = refl

abbrev member_row : Membership
member_row = record (fresh_row 1 5) { access_state = granted; access_changed_at = some 20 }

abbrev left : World
left = record_access_transition 30 member_row false "eligibility_lost" joined

abbrev left_row : Membership
left_row = arm 30 "eligibility_lost" member_row

left-rows : left.memberships ≡ left_row ∷ fresh_row 2 6 ∷ fresh_row 3 7 ∷ []
unfolding record_access_transition on_access_gained on_access_lost record_grant save_event
left-rows = refl

left-IsSnapshot :
    (row : Membership)
    → find
        (is_member row.sale_address row.member_address)
        (left_row ∷ fresh_row 2 6 ∷ fresh_row 3 7 ∷ [])
      ≡ some row
    → IsSnapshot row left
left-IsSnapshot row e = record {
  current = row;
  found = ap (find (is_member row.sale_address row.member_address)) left-rows ∙ e;
  same_id = refl;
}

left-IsKeyed : IsKeyed left
left-IsKeyed = subst (All (λ row. IsSnapshot row left)) (sym left-rows) (
  left-IsSnapshot left_row refl,
  (left-IsSnapshot (fresh_row 2 6) refl, (left-IsSnapshot (fresh_row 3 7) refl, tt)),
)

left-IsLedgered : IsLedgered left
left-IsLedgered =
    record_access_transition-IsLedgered 30 member_row false "eligibility_lost" joined
      (record {
        current = member_row;
        found = ap (find (is_member 1 5)) joined-rows;
        same_id = refl;
      })
      joined-IsLedgered

-- The revoke of the member who left stands in the ledger after the grace window.
finalize_revokes : (finalize_due_revokes settings 70_000 left).revoked ≡ 1
unfolding finalize_due_revokes record_access_transition on_access_gained on_access_lost record_grant
    save_event revoke finalize_row
finalize_revokes = refl

finalize_due_revokes-IsLedgered_example :
    IsLedgered (finalize_due_revokes settings 70_000 left).world
finalize_due_revokes-IsLedgered_example =
    finalize_due_revokes-IsLedgered settings 70_000 left left-IsKeyed left-IsLedgered

record_access_transition-IsLedgered_example : IsLedgered joined
record_access_transition-IsLedgered_example =
    record_access_transition-IsLedgered 20 (fresh_row 1 5) true "access_gained" world
      (record { current = fresh_row 1 5; found = refl; same_id = refl }) world-IsLedgered
