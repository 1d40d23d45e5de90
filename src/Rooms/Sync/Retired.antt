-- ===== src/Rooms/Sync/Retired.antt =====
-- What retiring a row of a deleted room does.
use superhero_api.Base.{
  ℕ, true, false, not, ◌≡◌, refl, ◌==◌, if◌then◌else◌, is_some, update, update-update,
}
use superhero_api.Rooms.Store.{removed, is_granted, Membership, World, update_row}
use superhero_api.Rooms.Rows.{KeepsKey}
use superhero_api.Rooms.Access.{arm, or_access_lost, on_access_lost, record_access_transition}
use superhero_api.Rooms.Sync.{publish_at, retire}
use superhero_api.Rooms.Sync.Ack.Ledgered.{publish_at-KeepsKey}

-- What retiring does to the row that it selects.
pub record Retires (f : Membership → Membership) : Type 0 where
  pub keys : KeepsKey f
  pub relay : (m : Membership) → (f m).relay_state ≡ removed

-- What it does to the world.
pub record Retired (w w' : World) (row : Membership) : Type 0 where
  pub change : Membership → Membership
  pub is_retirement : Retires change
  pub rows : w'.memberships ≡ update (λ m. m.id == row.id) change w.memberships
  pub queue : w'.queue ≡ w.queue
  pub emitted : w'.emitted ≡ w.emitted
  pub ledger : w'.ledger ≡ w.ledger

pub retire-Retired : (now : ℕ) (w : World) (row : Membership) → Retired w (retire now w row) row
unfolding retire record_access_transition on_access_lost
retire-Retired now w row =
    let plain : Retired w (update_row row.id (publish_at now removed) w) row = record {
      change = publish_at now removed;
      is_retirement = record { keys = publish_at-KeepsKey now removed; relay = λ m. refl };
      rows = refl;
      queue = refl;
      emitted = refl;
      ledger = refl;
    } in
    let timer = arm now (or_access_lost "room_deleted") in
    let armed : Retired w (update_row row.id timer (update_row row.id (publish_at now removed) w))
        row =
      record {
        change = λ m. timer (publish_at now removed m);
        is_retirement = record {
          keys = record { sale = λ m. refl; address = λ m. refl; id = λ m. refl };
          relay = λ m. refl;
        };
        rows =
            update-update (λ m. m.id == row.id) (publish_at now removed) timer (λ x. refl)
              w.memberships;
        queue = refl;
        emitted = refl;
        ledger = refl;
      } in
    elim (not (is_granted row.access_state))
      as (λ b.
        Retired w
          (if b
            then update_row row.id (publish_at now removed) w
            else if is_some row.pending_revoke_since
            then update_row row.id (publish_at now removed) w
            else update_row row.id timer (update_row row.id (publish_at now removed) w))
          row) [
            | true ↦ plain
            | false ↦
                elim (is_some row.pending_revoke_since)
                  as (λ b.
                    Retired w
                      (if b
                        then update_row row.id (publish_at now removed) w
                        else update_row row.id timer (update_row row.id (publish_at now removed) w))
                      row) [ true ↦ plain | false ↦ armed ]
          ]
