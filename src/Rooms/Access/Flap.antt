-- ===== src/Rooms/Access/Flap.antt =====
-- recordAccessTransition of membership-access.service.ts on a flap: access that is lost and regained
-- within the grace window.
use superhero_api.Base.{
  ℕ, true, false, none, some, ◌≡◌, refl, sym, ap, ◌∙◌, ◌==◌, ==_iff, not, Option, is_some, if-then,
  if-else, find-update, update-update,
}
use superhero_api.Base.Keys.{update_same}
use Prim.Native.String.{String}
use superhero_api.Rooms.Store.{
  granted, is_granted, Membership, World, is_member, find_member, update_row,
}
use superhero_api.Rooms.Rows.{HasIds, row_id}
use superhero_api.Rooms.Access.{
  arm, disarm, or_access_lost, on_access_gained, on_access_lost, record_access_transition,
}

disarm-arm :
    (now : ℕ) (reason : String) (row : Membership)
    → row.pending_revoke_since ≡ none
    → row.pending_revoke_reason ≡ none
    → disarm (arm now reason row) ≡ row
disarm-arm now reason row e r =
    ap (λ (t : Option ℕ). record row { pending_revoke_since = t; pending_revoke_reason = none })
      (sym e)
    ∙ ap (λ (t : Option String). record row { pending_revoke_reason = t }) (sym r)

loss_arms :
    (now : ℕ) (row : Membership) (reason : String) (w : World)
    → row.access_state ≡ granted
    → row.pending_revoke_since ≡ none
    → record_access_transition now row false reason w
      ≡ update_row row.id (arm now (or_access_lost reason)) w
unfolding record_access_transition on_access_lost
loss_arms now row reason w has unarmed =
    if-else w _ (ap (λ a. not (is_granted a)) has) ∙ if-else w _ (ap is_some unarmed)

return_disarms :
    (now : ℕ) (row : Membership) (again : String) (w : World)
    → row.access_state ≡ granted
    → is_some row.pending_revoke_since ≡ true
    → record_access_transition now row true again w ≡ update_row row.id disarm w
unfolding record_access_transition on_access_gained
return_disarms now row again w has armed = if-then _ _ (ap is_granted has) ∙ if-then _ w armed

-- A member with access whose row is not armed loses it: the row that is found is then armed. When
-- the access returns on that row, every column that is modelled is as it was before the loss, which
-- leaves out the time of the last write: no event is recorded or emitted, and no timer is left.
pub record_access_transition_flap :
    (lost regained : ℕ) (row : Membership) (reason again : String) (w : World)
    → HasIds w.memberships
    → find_member row.sale_address row.member_address w ≡ some row
    → row.access_state ≡ granted
    → row.pending_revoke_since ≡ none
    → row.pending_revoke_reason ≡ none
    → let armed = arm lost (or_access_lost reason) row in
      let w' = record_access_transition lost row false reason w in
      (find_member row.sale_address row.member_address w' ≡ some armed)
      × (record_access_transition regained armed true again w' ≡ w)
record_access_transition_flap lost regained row reason again w ids found has unarmed plain =
    let lose = arm lost (or_access_lost reason) in
    let gone = loss_arms lost row reason w has unarmed in
    (
      ap (find_member row.sale_address row.member_address) gone
          ∙ find-update (λ m. m.id == row.id) (is_member row.sale_address row.member_address) lose
              (λ x. refl) w.memberships row found ((==_iff row.id row.id).1 refl),
      ap (record_access_transition regained (lose row) true again) gone
          ∙ return_disarms regained (lose row) again (update_row row.id lose w) has refl
          ∙ ap (λ rows. record w { memberships = rows })
              (update-update (λ m. m.id == row.id) lose disarm (λ x. refl) w.memberships
                ∙ update_same row_id (λ x. disarm (lose x))
                    (is_member row.sale_address row.member_address) w.memberships row ids found
                    (disarm-arm lost (or_access_lost reason) row unarmed plain)),
    )
