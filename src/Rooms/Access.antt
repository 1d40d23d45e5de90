-- ===== src/Rooms/Access.antt =====
-- src/token-gated-rooms/services/membership-access.service.ts: the ledger of effective access. A gain
-- is announced at once; a loss arms a timer, and is announced only if it outlasts the grace window.
pub mod Ledger
pub mod Finalize
pub mod Flap
use Prim.Native.String.{String}
use text.Mathlib.Text.{◌==◌ as str_eq}
use superhero_api.Base.{
  ℕ, suc, ◌+◌, ◌*◌, Bool, true, false, not, ◌&&◌, none, some, List, ◌∷◌, ◌==◌, leb, if◌then◌else◌,
  is_some, or_else, length, take, select, any, update,
}
use superhero_api.Base.Pages.{each}
use superhero_api.Base.Keys.{by_id}
use superhero_api.Rooms.Store.{
  RelayState, added, removed, relay_eq, AccessState, no_access, granted, is_granted, Membership,
  AccessEventType, access_granted, access_revoked, AccessEvent, membership_changed, World, emit,
  update_row,
}
use superhero_api.Rooms.Config.{Config}
use superhero_api.Rooms.Rows.{row_id}

abbrev pub is_grant : AccessEvent → Bool
is_grant e = elim e.event [ access_granted ↦ true | access_revoked ↦ false ]

abbrev pub is_of : ℕ → ℕ → AccessEvent → Bool
is_of sale address e = e.sale_address == sale && e.member_address == address

abbrev pub disarm : Membership → Membership
disarm m = record m { pending_revoke_since = none; pending_revoke_reason = none }

abbrev pub arm : ℕ → String → Membership → Membership
arm now reason m = record m { pending_revoke_since = some now; pending_revoke_reason = some reason }

abbrev pub set_access : ℕ → AccessState → Membership → Membership
set_access now s m = record m {
  access_state = s;
  access_changed_at = some now;
  pending_revoke_since = none;
  pending_revoke_reason = none;
}

-- The compare-and-set of the code: the row with this id, if its access is still the given one.
abbrev pub holds_access : Bool → Membership → Bool
holds_access b m = if b then is_granted m.access_state else not (is_granted m.access_state)

abbrev pub new_event : ℕ → Membership → AccessEventType → String → Bool → AccessEvent
new_event id row event reason first = record {
  id = id;
  sale_address = row.sale_address;
  member_address = row.member_address;
  event = event;
  reason = reason;
  is_first_grant = first;
}

-- The event is saved to the ledger, and announced with its id.
unfoldable pub save_event :
    Membership → RelayState → AccessEventType → String → Bool → World → World
save_event row state event reason first w =
    emit (membership_changed row.sale_address row.member_address state w.next_event first reason)
      (record w {
        ledger = new_event w.next_event row event reason first ∷ w.ledger;
        next_event = suc w.next_event;
      })

unfoldable pub prior_grants : ℕ → ℕ → List AccessEvent → ℕ
prior_grants sale address ledger = length (select (λ e. is_of sale address e && is_grant e) ledger)

unfoldable pub record_grant : Membership → World → World
record_grant row w =
    let first = prior_grants row.sale_address row.member_address w.ledger == 0 in
    save_event row added access_granted (if first then "join" else "regained") first w

unfoldable pub on_access_gained : ℕ → Membership → World → World
on_access_gained now row w =
    if is_granted row.access_state
    then (if is_some row.pending_revoke_since then update_row row.id disarm w else w)
    else if any (by_id row_id row.id (holds_access false)) w.memberships
    then record_grant row (record w {
      memberships =
          update (by_id row_id row.id (holds_access false)) (set_access now granted) w.memberships;
    })
    else w

-- `reason || 'access_lost'`
abbrev pub or_access_lost : String → String
or_access_lost reason = if str_eq reason "" then "access_lost" else reason

unfoldable pub on_access_lost : ℕ → Membership → String → World → World
on_access_lost now row reason w =
    if not (is_granted row.access_state)
    then w
    else if is_some row.pending_revoke_since
    then w
    else update_row row.id (arm now (or_access_lost reason)) w

unfoldable pub record_access_transition : ℕ → Membership → Bool → String → World → World
record_access_transition now row effective reason w =
    if effective then on_access_gained now row w else on_access_lost now row reason w

-- The finalizer's counts.
pub record Finalized : Type 0 where
  pub world : World
  pub revoked : ℕ
  pub cancelled : ℕ

-- `pending_revoke_since <= now - grace`, with both sides moved up by the grace.
abbrev pub is_due : ℕ → ℕ → Membership → Bool
is_due grace_ms now m = elim m.pending_revoke_since [
  | none ↦ false
  | some t ↦ leb (t + grace_ms) now
]

unfoldable pub revoke : ℕ → Membership → Finalized → Finalized
revoke now row s =
    if any (by_id row_id row.id (holds_access true)) s.world.memberships
    then record {
      world =
          save_event row removed access_revoked
            (or_access_lost (or_else row.pending_revoke_reason "")) false
            (record (s.world) {
              memberships =
                  update (by_id row_id row.id (holds_access true)) (set_access now no_access)
                    s.world.memberships;
            });
      revoked = suc s.revoked;
      cancelled = s.cancelled;
    }
    else s

-- One due row, as the query read it.
unfoldable pub finalize_row : ℕ → Finalized → Membership → Finalized
finalize_row now s row =
    if relay_eq row.relay_state added
    then record s { world = update_row row.id disarm s.world; cancelled = suc s.cancelled }
    else if not (is_granted row.access_state)
    then record s { world = update_row row.id disarm s.world }
    else revoke now row s

unfoldable pub finalize_due_revokes : Config → ℕ → World → Finalized
finalize_due_revokes c now w =
    each (finalize_row now) (record { world = w; revoked = 0; cancelled = 0 })
      (take 500 (select (is_due (c.access_revoke_grace_sec * 1000) now) w.memberships))
