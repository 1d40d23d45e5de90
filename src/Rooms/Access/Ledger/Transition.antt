-- ===== src/Rooms/Access/Ledger/Transition.antt =====
-- recordAccessTransition of membership-access.service.ts and the order of the ledger, by its branches.
use superhero_api.Base.{
  ℕ, Bool, true, false, not, ◌≡◌, refl, sym, ap, subst, ◌∙◌, inl, inr, ◌==◌, if◌then◌else◌, any,
  update, Bool-cases, is_some, if-then, if-else,
}
use Prim.Native.String.{String}
use superhero_api.Base.Keys.{by_id, any-by_id}
use superhero_api.Rooms.Store.{
  no_access, granted, is_granted, Membership, World, is_member, update_row,
}
use superhero_api.Rooms.Rows.{row_id}
use superhero_api.Rooms.Access.{
  disarm, arm, or_access_lost, set_access, holds_access, save_event, record_grant, on_access_gained,
  on_access_lost, record_access_transition,
}
use superhero_api.Rooms.Access.Ledger.{
  grant, IsLedgered, IsSnapshot, quiet-IsLedgered, flip-IsLedgered, prior_grants-eq, first_grant,
  arm-KeepsKey, set_access-KeepsKey, disarm-IsLedgered, not_granted, history-Alternates,
}

-- The compare-and-set of a grant, with the event that it writes.
grant-IsLedgered :
    (now : ℕ) (row : Membership) (w : World)
    → IsSnapshot row w
    → any (by_id row_id row.id (holds_access false)) w.memberships ≡ true
    → IsLedgered w
    → IsLedgered (
        record_grant row (record w {
          memberships =
              update
                (by_id row_id row.id (holds_access false))
                (set_access now granted)
                w.memberships;
        }))
unfolding record_grant save_event
grant-IsLedgered now row w s h v =
    let free =
      any-by_id row_id (is_member row.sale_address row.member_address) (holds_access false)
        w.memberships s.current v.ids s.found (rw s.same_id h) in
    let before = history-Alternates row s.current w no_access v s.found (not_granted _ free) in
    flip-IsLedgered (set_access-KeepsKey now granted) (holds_access false) w _ s.current _ s.found
      (rw s.same_id refl) refl free
      (grant _ _ before refl (
        ap (λ n. n == 0) (prior_grants-eq row.sale_address row.member_address w.ledger)
        ∙ first_grant _ before))
      v

pub on_access_gained-IsLedgered :
    (now : ℕ) (row : Membership) (w : World)
    → IsSnapshot row w
    → IsLedgered w
    → IsLedgered (on_access_gained now row w)
unfolding on_access_gained
on_access_gained-IsLedgered now row w s v = elim (Bool-cases (is_granted row.access_state)) [
  | inl had ↦
      rw had
        (elim (is_some row.pending_revoke_since)
          as (λ b. IsLedgered (if b then update_row row.id disarm w else w)) [
            | true ↦ disarm-IsLedgered row.id w v
            | false ↦ v
          ])
  | inr lacked ↦
      rw lacked (elim (Bool-cases (any (by_id row_id row.id (holds_access false)) w.memberships)) [
        | inl won ↦ subst IsLedgered (sym (if-then _ w won)) (grant-IsLedgered now row w s won v)
        | inr lost ↦ subst IsLedgered (sym (if-else _ w lost)) v
      ])
]

pub on_access_lost-IsLedgered :
    (now : ℕ) (row : Membership) (reason : String) (w : World)
    → IsLedgered w
    → IsLedgered (on_access_lost now row reason w)
unfolding on_access_lost
on_access_lost-IsLedgered now row reason w v =
    let armed =
      quiet-IsLedgered (arm-KeepsKey now (or_access_lost reason)) (λ m. refl) (λ m. m.id == row.id)
        w (update_row row.id (arm now (or_access_lost reason)) w) refl refl v in
    elim (Bool-cases (not (is_granted row.access_state))) [
      | inl none_to_lose ↦ rw none_to_lose v
      | inr had ↦ elim (Bool-cases (is_some row.pending_revoke_since)) [
        | inl earlier ↦ rw (had, earlier) v
        | inr fresh ↦ rw (had, fresh) armed
      ]
    ]

-- A relay-state transition, folded into the ledger from any earlier reading of the member's row,
-- keeps the ledger alternating for every member.
pub record_access_transition-IsLedgered :
    (now : ℕ) (row : Membership) (effective : Bool) (reason : String) (w : World)
    → IsSnapshot row w
    → IsLedgered w
    → IsLedgered (record_access_transition now row effective reason w)
unfolding record_access_transition
record_access_transition-IsLedgered now row true reason w s v =
    on_access_gained-IsLedgered now row w s v
record_access_transition-IsLedgered now row false reason w s v =
    on_access_lost-IsLedgered now row reason w v
