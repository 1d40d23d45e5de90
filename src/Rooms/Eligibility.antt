-- ===== src/Rooms/Eligibility.antt =====
-- src/token-gated-rooms/services/eligibility.service.ts: who should be in which room. The service
-- writes the desired state of a membership row and announces what changed.
pub mod Transition
pub mod Member
pub mod Recomputed
pub mod Announced
pub mod Recompute
use superhero_api.Base.{
  ℕ, suc, Bool, true, false, not, ◌&&◌, ◌||◌, Option, none, some, List, ◌∷◌, ◌++◌, ◌==◌, leb,
  if◌then◌else◌, opt_eq, is_some, or_else, includes, find,
}
use superhero_api.Rooms.Store.{
  Role, member, admin, RelayState, pending_add, added, pending_remove, removed, no_access, is_admin,
  role_eq, relay_eq, bool_eq, Room, Membership, TokenBalance, eligibility_changed, World, emit,
  find_member, update_row,
}

-- `!!pubkey`: neither null nor the empty text.
abbrev pub is_set : Option ℕ → Bool
is_set none = false
is_set (some a) = not (a == 0)

-- The predicate isEligible, on raw base units.
unfoldable pub is_eligible : Option ℕ → Option ℕ → List ℕ → ℕ → Bool
is_eligible balance_raw threshold_raw muted address =
    if includes address muted then false else leb (or_else threshold_raw 0) (or_else balance_raw 0)

abbrev pub was : Option RelayState → RelayState → Bool
was none s = false
was (some prev) s = relay_eq prev s

unfoldable pub next_relay_state : Bool → Bool → Role → Option RelayState → RelayState
next_relay_state eligible has_pubkey role prev =
    if eligible
    then (if not has_pubkey
        then pending_add
        else if was prev added || was prev pending_add
        then or_else prev pending_add
        else pending_add)
    else (if is_admin role
        then or_else prev pending_add
        else if was prev added || was prev pending_add
        then pending_remove
        else or_else prev removed)

-- What a recompute wants the row to hold.
pub record Desired : Type 0 where
  pub eligible : Bool
  pub role : Role
  pub member_pubkey : Option ℕ
  pub relay_state : RelayState

abbrev pub prev_state : Option Membership → Option RelayState
prev_state none = none
prev_state (some row) = some row.relay_state

abbrev pub prev_eligible : Option Membership → Bool
prev_eligible none = false
prev_eligible (some row) = row.eligible

-- The balance row of one holder, and the raw balance that the recompute compares.
abbrev pub is_holder : ℕ → ℕ → TokenBalance → Bool
is_holder token holder b = b.token_address == token && b.holder_address == holder

abbrev pub balance_of : Option TokenBalance → Option ℕ
balance_of none = none
balance_of (some b) = some b.balance

abbrev pub holder_balance : Room → ℕ → Option (Option ℕ) → World → Option ℕ
holder_balance room address balance_raw w =
    or_else balance_raw (balance_of (find (is_holder room.token_address address) w.balances))

abbrev pub role_of : Room → ℕ → Role
role_of room address = if includes address room.moderators then admin else member

-- A deleted room wants every member out.
unfoldable pub wants : Room → ℕ → Option (Option ℕ) → World → Bool
unfolding is_eligible
wants room address balance_raw w =
    if room.deleted
    then false
    else is_eligible (holder_balance room address balance_raw w) (some room.min_token_threshold)
        room.muted address

unfoldable pub desired : Room → ℕ → Option Membership → Bool → Option ℕ → Desired
unfolding next_relay_state
desired room address current eligible pubkey = record {
  eligible = eligible;
  role = role_of room address;
  member_pubkey = pubkey;
  relay_state =
      next_relay_state eligible (is_set pubkey) (role_of room address) (prev_state current);
}

-- Only a tracked field that differs makes a write.
abbrev pub is_changed : Option Membership → Desired → Bool
is_changed none d = true
is_changed (some row) d =
    not (bool_eq row.eligible d.eligible)
    || not (role_eq row.role d.role)
    || not (opt_eq row.member_pubkey d.member_pubkey)
    || not (relay_eq row.relay_state d.relay_state)

abbrev pub with_desired : Desired → Membership → Membership
with_desired d row = record row {
  eligible = d.eligible;
  role = d.role;
  member_pubkey = d.member_pubkey;
  relay_state = d.relay_state;
}

-- A new row takes the next id and the columns' defaults.
abbrev pub new_row : ℕ → ℕ → ℕ → Desired → Membership
new_row id sale address d = record {
  id = id;
  sale_address = sale;
  member_address = address;
  member_pubkey = d.member_pubkey;
  role = d.role;
  eligible = d.eligible;
  relay_state = d.relay_state;
  access_state = no_access;
  access_changed_at = none;
  pending_revoke_since = none;
  pending_revoke_reason = none;
  held_until_height = none;
  last_published_at = none;
  last_reconciled_at = none;
}

unfoldable pub upsert_membership : ℕ → ℕ → Desired → Option Membership → World → World
upsert_membership sale address d (some row) w = update_row row.id (with_desired d) w
upsert_membership sale address d none w = record w {
  memberships = w.memberships ++ new_row w.next_id sale address d ∷ List.[];
  next_id = suc w.next_id;
}

abbrev pub is_publishable_add : Desired → Bool
is_publishable_add d = d.eligible && is_set d.member_pubkey && relay_eq d.relay_state pending_add

-- The event goes out on a flip, and when there is an add to publish.
unfoldable pub announce : ℕ → ℕ → Bool → Desired → World → World
announce sale address flipped d w =
    if flipped || is_publishable_add d
    then emit (eligibility_changed sale address d.eligible) w
    else w

-- The writing half of recomputeMember, with the row that it found.
unfoldable pub settle : ℕ → ℕ → Option Membership → Desired → World → World × Bool
settle sale address current d w =
    let flipped = not (bool_eq (prev_eligible current) d.eligible) in
    if not (is_changed current d)
    then (w, false)
    else if not (is_some current) && not d.eligible
    then (w, false)
    else (announce sale address flipped d (upsert_membership sale address d current w), flipped)

-- recomputeMember. An argument that is `none` was left out and is read here; `some none` is null.
unfoldable pub recompute_member :
    Room
    → ℕ
    → Option (Option Membership)
    → Option (Option ℕ)
    → Option (Option ℕ)
    → World
    → World × Bool
recompute_member room address existing balance_raw pubkey w =
    let current = or_else existing (find_member room.sale_address address w) in
    let eligible = wants room address balance_raw w in
    let d = desired room address current eligible (or_else pubkey (w.pubkey_of address)) in
    settle room.sale_address address current d w
