-- ===== src/Rooms/Sync/Written.antt =====
-- membership-access.service.ts: how a change of access writes the row that an ACK has found.
use Prim.Native.String.{String}
use superhero_api.Base.{
  ℕ, Bool, true, false, not, ◌≡◌, refl, inl, inr, if◌then◌else◌, Bool-cases, is_some, update, any,
}
use superhero_api.Base.Keys.{by_id}
use superhero_api.Rooms.Store.{granted, is_granted, Membership, World, update_row}
use superhero_api.Rooms.Rows.{row_id}
use superhero_api.Rooms.Access.{
  arm, disarm, set_access, holds_access, or_access_lost, save_event, record_grant, on_access_gained,
  on_access_lost, record_access_transition,
}

-- A change of columns that the acknowledgement neither looks at nor sets.
pub record KeepsRelay (f : Membership → Membership) : Type 0 where
  pub sale : (m : Membership) → (f m).sale_address ≡ m.sale_address
  pub pubkey : (m : Membership) → (f m).member_pubkey ≡ m.member_pubkey
  pub relay : (m : Membership) → (f m).relay_state ≡ m.relay_state

pub data AccessWrite (w w' : World) : Type 0 where
  same : w'.memberships ≡ w.memberships → AccessWrite w w'
  access :
      (f : Membership → Membership) (p : Membership → Bool)
      → KeepsRelay f
      → w'.memberships ≡ update p f w.memberships
      → AccessWrite w w'

on_access_gained-AccessWrite :
    (now : ℕ) (row : Membership) (w : World) → AccessWrite w (on_access_gained now row w)
unfolding on_access_gained record_grant save_event
on_access_gained-AccessWrite now row w = elim (Bool-cases (is_granted row.access_state)) [
  | inl had ↦
      rw had
        (elim (is_some row.pending_revoke_since)
          as (λ b. AccessWrite w (if b then update_row row.id disarm w else w)) [
            | true ↦
                access disarm _ (record { sale = λ m. refl; pubkey = λ m. refl; relay = λ m. refl })
                  refl
            | false ↦ same refl
          ])
  | inr lacked ↦
      rw lacked (elim (Bool-cases (any (by_id row_id row.id (holds_access false)) w.memberships)) [
        | inl won ↦ rw won (
            access (set_access now granted) _
              (record { sale = λ m. refl; pubkey = λ m. refl; relay = λ m. refl }) refl)
        | inr lost ↦ rw lost (same refl)
      ])
]

on_access_lost-AccessWrite :
    (now : ℕ) (row : Membership) (reason : String) (w : World)
    → AccessWrite w (on_access_lost now row reason w)
unfolding on_access_lost
on_access_lost-AccessWrite now row reason w =
    elim (Bool-cases (not (is_granted row.access_state))) [
      | inl none_to_lose ↦ rw none_to_lose (same refl)
      | inr had ↦ elim (Bool-cases (is_some row.pending_revoke_since)) [
        | inl earlier ↦ rw (had, earlier) (same refl)
        | inr fresh ↦
            rw (had, fresh)
              (access (arm now (or_access_lost reason)) _
                (record { sale = λ m. refl; pubkey = λ m. refl; relay = λ m. refl }) refl)
      ]
    ]

pub record_access_transition-AccessWrite :
    (now : ℕ) (row : Membership) (effective : Bool) (reason : String) (w : World)
    → AccessWrite w (record_access_transition now row effective reason w)
unfolding record_access_transition
record_access_transition-AccessWrite now row true reason w = on_access_gained-AccessWrite now row w
record_access_transition-AccessWrite now row false reason w =
    on_access_lost-AccessWrite now row reason w
