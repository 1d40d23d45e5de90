-- ===== src/Rooms/Sync/Ack/Ledgered.antt =====
-- onPublishAck of membership-sync.service.ts and the ledger of access.
use Prim.Native.String.{String}
use superhero_api.Base.{
  ℕ, Bool, true, false, Option, ◌≡◌, refl, inl, inr, ◌==◌, if◌then◌else◌, Bool-cases, Option-cases,
}
use superhero_api.Base.{All-select, pick_at, select}
use superhero_api.Base.Pick.{All-pick_at}
use superhero_api.Rooms.Store.{RelayState, added, removed, relay_eq, Membership, World, update_row}
use superhero_api.Rooms.Rows.{KeepsKey, write}
use superhero_api.Rooms.Nip29.{put_user_kind, remove_user_kind, set_roles_kind}
use superhero_api.Rooms.Access.{record_access_transition}
use superhero_api.Rooms.Access.Ledger.{IsLedgered, IsSnapshot, quiet-IsLedgered}
use superhero_api.Rooms.Access.Ledger.Transition.{record_access_transition-IsLedgered}
use superhero_api.Rooms.Access.Finalize.{IsKeyed, IsSnapshot-Writes}
use superhero_api.Rooms.Sync.{
  text_of, publish_at, stamp, apply_ack, has_pubkey, ack_found, is_ignored_ack, on_publish_ack,
}

-- A write of the published columns, and the transition after it, keep the ledger alternating.
pub written-IsLedgered :
    (now : ℕ) (f : Membership → Membership) (k : KeepsKey f) (row : Membership) (effective : Bool)
    (reason : String) (w : World)
    → ((m : Membership) → (f m).access_state ≡ m.access_state)
    → IsSnapshot row w
    → IsLedgered w
    → IsLedgered (record_access_transition now row effective reason (update_row row.id f w))
written-IsLedgered now f k row effective reason w keeps s v =
    record_access_transition-IsLedgered now row effective reason (update_row row.id f w)
      (IsSnapshot-Writes row w (update_row row.id f w) (write f _ k refl) s)
      (quiet-IsLedgered k keeps (λ m. m.id == row.id) w (update_row row.id f w) refl refl v)

pub publish_at-KeepsKey : (now : ℕ) (s : RelayState) → KeepsKey (publish_at now s)
publish_at-KeepsKey now s = record { sale = λ m. refl; address = λ m. refl; id = λ m. refl }

apply_ack-IsLedgered :
    (now kind : ℕ) (row : Membership) (w : World)
    → IsSnapshot row w
    → IsLedgered w
    → IsLedgered (apply_ack now row kind w)
unfolding apply_ack
apply_ack-IsLedgered now kind row w s v = elim (Bool-cases (kind == put_user_kind)) [
  | inl put ↦ elim (Bool-cases (relay_eq row.relay_state added)) [
    | inl done ↦ rw (put, done) v
    | inr fresh ↦
        rw (put, fresh)
          (written-IsLedgered now _ (publish_at-KeepsKey now added) row true _ w (λ m. refl) s v)
  ]
  | inr not_put ↦ elim (Bool-cases (kind == remove_user_kind)) [
    | inl out ↦ elim (Bool-cases (relay_eq row.relay_state removed)) [
      | inl done ↦ rw (not_put, out, done) v
      | inr fresh ↦
          rw (not_put, out, fresh)
            (written-IsLedgered now _ (publish_at-KeepsKey now removed) row false _ w (λ m. refl) s
              v)
    ]
    | inr not_out ↦ elim (Bool-cases (kind == set_roles_kind)) [
      | inl role ↦
          rw (not_put, not_out, role)
            (written-IsLedgered now (stamp now)
              (record { sale = λ m. refl; address = λ m. refl; id = λ m. refl }) row _ _ w
              (λ m. refl) s v)
      | inr other ↦ rw (not_put, not_out, other) v
    ]
  ]
]

ack_found-IsLedgered :
    (now choice kind : ℕ) (q : Membership → Bool) (w : World)
    → IsKeyed w
    → IsLedgered w
    → IsLedgered (ack_found now kind (pick_at choice (select q w.memberships)) w)
ack_found-IsLedgered now choice kind q w keyed v =
    elim (Option-cases (pick_at choice (select q w.memberships))) [
      | inl e ↦ rw e v
      | inr (row, e) ↦ rw e (
          apply_ack-IsLedgered now kind row w
            (All-pick_at (λ r. IsSnapshot r w) choice (select q w.memberships) row
              (All-select (λ r. IsSnapshot r w) q w.memberships keyed) e)
            v)
    ]

-- Whatever the ACK says and whichever row of the pubkey it finds, over a table with its unique index it keeps the ledger alternating.
pub on_publish_ack-IsLedgered :
    (now choice sale kind : ℕ) (pubkey : Option ℕ) (ok : Bool) (w : World)
    → IsKeyed w
    → IsLedgered w
    → IsLedgered (on_publish_ack now choice sale kind pubkey ok w)
unfolding on_publish_ack
on_publish_ack-IsLedgered now choice sale kind pubkey ok w keyed v =
    let acted =
      ack_found now kind (pick_at choice (select (has_pubkey sale (text_of pubkey)) w.memberships))
        w in
    elim (is_ignored_ack sale kind pubkey ok) as (λ b. IsLedgered (if b then w else acted)) [
      | true ↦ v
      | false ↦ ack_found-IsLedgered now choice kind (has_pubkey sale (text_of pubkey)) w keyed v
    ]
