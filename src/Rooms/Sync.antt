-- ===== src/Rooms/Sync.antt =====
-- src/token-gated-rooms/services/membership-sync.service.ts: the publisher. It turns the pending rows
-- of the ledger into relay jobs, and moves a row on when the relay has acknowledged its job.
pub mod Retired
pub mod Written
pub mod Justified
pub mod Roles
pub mod Ack
pub mod Deleted
pub mod Scan
use Prim.Native.String.{String}
use superhero_api.Base.{
  ℕ, Bool, true, false, not, ◌&&◌, ◌||◌, Option, none, some, List, [], ◌∷◌, ◌==◌, if◌then◌else◌,
  is_some, or_else, includes, find, select, pick_at,
}
use superhero_api.Base.Pages.{each}
use superhero_api.Rooms.Store.{
  Role, member, admin, is_admin, RelayState, pending_add, added, pending_remove, removed, relay_eq,
  Room, Membership, Token, Template, Job, World, find_room, find_member, find_token, update_row,
  group_id_for,
}
use superhero_api.Rooms.Config.{Config, is_configured_admin}
use superhero_api.Rooms.Eligibility.{is_set}
use superhero_api.Rooms.Access.{record_access_transition}
use superhero_api.Rooms.Missing.{is_missing}
use superhero_api.Rooms.Nip29.{
  put_user_kind, remove_user_kind, set_roles_kind, put_user, remove_user, set_roles, delete_group,
}

-- roomConfirmedCreated: either durable mark will do.
unfoldable pub room_confirmed_created : Option Token → Bool
room_confirmed_created none = false
room_confirmed_created (some t) = t.room_created || is_some t.room_id

abbrev pub is_deleted : Option Room → Bool
is_deleted none = false
is_deleted (some r) = r.deleted

abbrev pub muted_of : Option Room → List ℕ
muted_of none = []
muted_of (some r) = r.muted

abbrev pub new_job : Template → ℕ → ℕ → String → Job
new_job template group sale reason = record {
  template = template;
  group_id = group;
  sale_address = sale;
  reason = reason;
}

abbrev pub enqueue : Template → ℕ → ℕ → String → World → World
enqueue template group sale reason w = record w {
  queue = new_job template group sale reason ∷ w.queue;
}

-- The text that a non-empty pubkey is; the code reads it only behind that test.
abbrev pub text_of : Option ℕ → ℕ
text_of o = or_else o 0

unfoldable pub add_unless_muted : Membership → Option Room → ℕ → World → World × Bool
add_unless_muted row room group w =
    if includes row.member_address (muted_of room) then (w, false) else (
      enqueue
          (put_user group (text_of row.member_pubkey)
            (if is_admin row.role then some admin else none))
          group row.sale_address "membership:membership-add" w,
      true,
    )

unfoldable pub maybe_enqueue_add : ℕ → Membership → Option Room → ℕ → World → World × Bool
unfolding add_unless_muted
maybe_enqueue_add now row room group w =
    if not (is_set row.member_pubkey)
    then (w, false)
    else let (held, missing) = is_missing now row.sale_address w.missing in
      let w' = record w { missing = missing } in
      if held then (w', false) else add_unless_muted row room group w'

unfoldable pub maybe_enqueue_remove : Config → Membership → ℕ → World → World × Bool
maybe_enqueue_remove c row group w =
    if not (is_set row.member_pubkey)
    then (w, false)
    else if is_configured_admin c row.member_pubkey
    then (w, false)
    else (
      enqueue (remove_user group (text_of row.member_pubkey)) group row.sale_address
          "membership:membership-remove" w,
      true,
    )

-- The choice by relay state that the event handler and both scans make.
abbrev pub by_state {ℓ} : {A : Type ℓ} → RelayState → A → A → A → A
by_state pending_add a r other = a
by_state pending_remove a r other = r
by_state _ a r other = other

unfoldable pub publish_pending : Config → ℕ → Membership → Option Room → ℕ → World → World × Bool
publish_pending c now row room group w =
    by_state row.relay_state (maybe_enqueue_add now row room group w)
      (maybe_enqueue_remove c row group w) (w, false)

unfoldable pub publish_for_row : Config → ℕ → Membership → World → World × Bool
publish_for_row c now row w =
    let room = find_room row.sale_address w in
    let group = group_id_for row.sale_address (find_token row.sale_address w) in
    if is_deleted room then (w, false) else publish_pending c now row room group w

-- The handler of tgr.eligibility.changed; an empty address is ignored.
unfoldable pub on_eligibility_changed : Config → ℕ → ℕ → ℕ → World → World
unfolding publish_for_row
on_eligibility_changed c now sale address w =
    if sale == 0 || address == 0
    then w
    else elim (find_member sale address w) [ none ↦ w | some row ↦ (publish_for_row c now row w).0 ]

unfoldable pub demote : Config → Membership → ℕ → World → World × Bool
demote c row group w = if is_configured_admin c row.member_pubkey then (w, false) else (
  enqueue (set_roles group (text_of row.member_pubkey) (member ∷ [])) group row.sale_address
      "membership:role-demote" w,
  true,
)

abbrev pub publish_as : Config → Membership → ℕ → World → Role → World × Bool
publish_as c row group w member = demote c row group w
publish_as c row group w admin = (
  enqueue (set_roles group (text_of row.member_pubkey) (admin ∷ [])) group row.sale_address
      "membership:role-promote" w,
  true,
)

-- Only a linked member who is on the relay has a role to change there.
unfoldable pub publish_role : Config → Membership → ℕ → World → World × Bool
publish_role c row group w =
    if not (is_set row.member_pubkey)
    then (w, false)
    else if not (relay_eq row.relay_state added)
    then (w, false)
    else publish_as c row group w row.role

abbrev pub publish_role_found : Config → ℕ → Option Membership → World → World × Bool
publish_role_found c group none w = (w, false)
publish_role_found c group (some row) w = publish_role c row group w

unfoldable pub publish_role_change : Config → ℕ → ℕ → World → World × Bool
publish_role_change c sale address w =
    publish_role_found c (group_id_for sale (find_token sale w)) (find_member sale address w) w

abbrev pub publish_at : ℕ → RelayState → Membership → Membership
publish_at now s m = record m { relay_state = s; last_published_at = some now }

abbrev pub stamp : ℕ → Membership → Membership
stamp now m = record m { last_published_at = some now }

unfoldable pub apply_ack : ℕ → Membership → ℕ → World → World
apply_ack now row kind w =
    if kind == put_user_kind
    then (if relay_eq row.relay_state added
        then w
        else record_access_transition now row true "access_gained"
            (update_row row.id (publish_at now added) w))
    else if kind == remove_user_kind
    then (if relay_eq row.relay_state removed
        then w
        else record_access_transition now row false "eligibility_lost"
            (update_row row.id (publish_at now removed) w))
    else if kind == set_roles_kind
    then record_access_transition now row (relay_eq row.relay_state added) "role"
        (update_row row.id (stamp now) w)
    else w

abbrev pub is_pubkey : ℕ → Option ℕ → Bool
is_pubkey pubkey none = false
is_pubkey pubkey (some a) = a == pubkey

-- `where: { sale_address, member_pubkey }`
abbrev pub has_pubkey : ℕ → ℕ → Membership → Bool
has_pubkey sale pubkey m = m.sale_address == sale && is_pubkey pubkey m.member_pubkey

abbrev pub ack_found : ℕ → ℕ → Option Membership → World → World
ack_found now kind none w = w
ack_found now kind (some row) w = apply_ack now row kind w

abbrev pub is_ignored_ack : ℕ → ℕ → Option ℕ → Bool → Bool
is_ignored_ack sale kind pubkey ok =
    (sale == 0 || not (is_set pubkey) || not ok)
    || (not (kind == put_user_kind)
        && not (kind == remove_user_kind)
        && not (kind == set_roles_kind))

-- The handler of tgr.publish.ack; an ACK without a member, a failed one, or one of another kind is
-- ignored. The query has no order, and several rows of a sale may have one pubkey: `choice` is which
-- of them the database gives.
unfoldable pub on_publish_ack : ℕ → ℕ → ℕ → ℕ → Option ℕ → Bool → World → World
on_publish_ack now choice sale kind pubkey ok w =
    if is_ignored_ack sale kind pubkey ok
    then w
    else ack_found now kind
        (pick_at choice (select (has_pubkey sale (text_of pubkey)) w.memberships)) w

-- A loop over deleted rows, each as the query read it.
unfoldable pub retire : ℕ → World → Membership → World
retire now w row =
    record_access_transition now row false "room_deleted"
      (update_row row.id (publish_at now removed) w)

unfoldable pub handle_deleted_room : ℕ → ℕ → World → World
unfolding retire
handle_deleted_room now sale w =
    let group = group_id_for sale (find_token sale w) in
    each (retire now) (enqueue (delete_group group) group sale "membership:community-deleted" w)
      (select (λ m. m.sale_address == sale && not (relay_eq m.relay_state removed)) w.memberships)

-- The handler of tgr.community.upserted.
unfoldable pub on_community_upserted : ℕ → ℕ → World → World
unfolding handle_deleted_room
on_community_upserted now sale w =
    if sale == 0
    then w
    else if is_deleted (find_room sale w)
    then handle_deleted_room now sale w
    else w
