-- ===== src/Rooms/Sync/Roles.antt =====
-- publishRoleChange of membership-sync.service.ts: what must hold where a role is published.
use superhero_api.Base.{
  ℕ, Bool, true, false, not, some, [], ◌∷◌, ◌≡◌, refl, sym, ap, subst, inl, inr, if-then, if-else,
  Bool-cases, Option-cases,
}
use superhero_api.Rooms.Store.{
  Role, member, admin, added, relay_eq, Membership, Job, World, find_member, find_token,
  group_id_for,
}
use superhero_api.Rooms.Config.{Config, is_configured_admin}
use superhero_api.Rooms.Nip29.{set_roles}
use superhero_api.Rooms.Eligibility.{is_set}
use superhero_api.Rooms.Sync.{
  new_job, text_of, demote, publish_as, publish_role, publish_role_found, publish_role_change,
}
use superhero_api.Rooms.Sync.Justified.{Publishes, nothing, one, Publishes-map}

-- A linked member who is on the relay is promoted, or demoted when the settings do not name the member
-- as an admin.
pub data RoleChange (c : Config) (group : ℕ) (row : Membership) (job : Job) : Type 0 where
  promotes :
      row.role ≡ admin
      → job
        ≡ new_job
            (set_roles group (text_of row.member_pubkey) (admin ∷ []))
            group
            row.sale_address
            "membership:role-promote"
      → RoleChange c group row job
  demotes :
      row.role ≡ member
      → is_configured_admin c row.member_pubkey ≡ false
      → job
        ≡ new_job
            (set_roles group (text_of row.member_pubkey) (member ∷ []))
            group
            row.sale_address
            "membership:role-demote"
      → RoleChange c group row job

demote-Publishes :
    (c : Config) (row : Membership) (group : ℕ) (w : World)
    → row.role ≡ member
    → Publishes (RoleChange c group row) w (demote c row group w)
unfolding demote
demote-Publishes c row group w e = elim (Bool-cases (is_configured_admin c row.member_pubkey)) [
  | inl named ↦
      subst (Publishes (RoleChange c group row) w) (sym (if-then _ _ named)) (nothing refl refl)
  | inr free ↦
      subst (Publishes (RoleChange c group row) w) (sym (if-else _ _ free))
        (one _ refl refl (demotes e free refl))
]

publish_as-Publishes :
    (c : Config) (row : Membership) (group : ℕ) (w : World) (r : Role)
    → row.role ≡ r
    → Publishes (RoleChange c group row) w (publish_as c row group w r)
publish_as-Publishes c row group w member e = demote-Publishes c row group w e
publish_as-Publishes c row group w admin e = one _ refl refl (promotes e refl)

-- The row found, on the relay and linked, with the change that is published for it.
pub record IsRoleJob (c : Config) (sale address : ℕ) (w : World) (job : Job) : Type 0 where
  pub row : Membership
  pub found : find_member sale address w ≡ some row
  pub linked : is_set row.member_pubkey ≡ true
  pub on_relay : relay_eq row.relay_state added ≡ true
  pub change : RoleChange c (group_id_for sale (find_token sale w)) row job

set_of : (b : Bool) → not b ≡ false → b ≡ true
set_of true h = refl
set_of false h = cc

publish_role-Publishes :
    (c : Config) (sale address : ℕ) (row : Membership) (w : World)
    → find_member sale address w ≡ some row
    → Publishes
        (IsRoleJob c sale address w)
        w
        (publish_role c row (group_id_for sale (find_token sale w)) w)
unfolding publish_role
publish_role-Publishes c sale address row w found =
    let group = group_id_for sale (find_token sale w) in
    let still : World × Bool = (w, false) in
    elim (Bool-cases (not (is_set row.member_pubkey))) [
      | inl unlinked ↦
          subst (Publishes (IsRoleJob c sale address w) w) (sym (if-then still _ unlinked))
            (nothing refl refl)
      | inr set ↦
          subst (Publishes (IsRoleJob c sale address w) w) (sym (if-else still _ set))
            (elim (Bool-cases (not (relay_eq row.relay_state added))) [
              | inl off ↦
                  subst (Publishes (IsRoleJob c sale address w) w) (sym (if-then still _ off))
                    (nothing refl refl)
              | inr on ↦
                  subst (Publishes (IsRoleJob c sale address w) w) (sym (if-else still _ on)) (
                    Publishes-map w (publish_as c row group w row.role)
                      (λ job change. record {
                        row = row;
                        found = found;
                        linked = set_of (is_set row.member_pubkey) set;
                        on_relay = set_of (relay_eq row.relay_state added) on;
                        change = change;
                      })
                      (publish_as-Publishes c row group w row.role refl))
            ])
    ]

-- A role change enqueues nothing, or one job for the member's row, which is linked and on the relay:
-- a promotion if its role is admin, a demotion if it is member and the settings name no such admin.
pub publish_role_change-Publishes :
    (c : Config) (sale address : ℕ) (w : World)
    → Publishes (IsRoleJob c sale address w) w (publish_role_change c sale address w)
unfolding publish_role_change
publish_role_change-Publishes c sale address w =
    let group = group_id_for sale (find_token sale w) in
    elim (Option-cases (find_member sale address w)) [
      | inl e ↦
          subst (Publishes (IsRoleJob c sale address w) w)
            (sym (ap (λ o. publish_role_found c group o w) e)) (nothing refl refl)
      | inr (row, e) ↦
          subst (Publishes (IsRoleJob c sale address w) w)
            (sym (ap (λ o. publish_role_found c group o w) e))
            (publish_role-Publishes c sale address row w e)
    ]
