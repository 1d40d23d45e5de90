-- ===== src/Rooms/Sync/Ack.antt =====
-- onPublishAck of membership-sync.service.ts: the member's row and the ledger after an ACK.
pub mod Ledgered
use Prim.Native.String.{String}
use superhero_api.Base.{
  ℕ, Bool, true, false, not, Option, some, ◌≡◌, refl, sym, ap, ◌∙◌, subst, inl, inr, arith, ◌==◌,
  ==_iff, if◌then◌else◌, if-then, if-else, Bool-cases, Option-cases, is_some, find, update, any,
  find-update, find-update-some,
}
use superhero_api.Base.Keys.{by_id}
use superhero_api.Base.{ap, none, ◌≤◌, arith, pick_at, select, sym}
use superhero_api.Base.Count.{count}
use superhero_api.Base.Pick.{pick_at-find, count-update}
use superhero_api.Rooms.Store.{
  RelayState, added, removed, relay_eq, granted, is_granted, Membership, World, update_row,
}
use superhero_api.Rooms.Rows.{row_id}
use superhero_api.Rooms.Nip29.{put_user_kind, remove_user_kind, set_roles_kind}
use superhero_api.Rooms.Access.{
  arm, disarm, set_access, holds_access, or_access_lost, save_event, record_grant, on_access_gained,
  on_access_lost, record_access_transition,
}
use superhero_api.Rooms.Sync.{
  text_of, publish_at, stamp, apply_ack, has_pubkey, ack_found, is_ignored_ack, on_publish_ack,
}
use superhero_api.Rooms.Sync.Written.{
  KeepsRelay, AccessWrite, same, access, record_access_transition-AccessWrite,
}

-- The row that `q` finds, in a given relay state.
abbrev pub Finds : (Membership → Bool) → RelayState → World → Type 0
Finds q s w = (row : Membership) × (find q w.memberships ≡ some row) × (row.relay_state ≡ s)

keeps-has_pubkey :
    {f : Membership → Membership} (k : KeepsRelay f) (sale pubkey : ℕ) (m : Membership)
    → has_pubkey sale pubkey (f m) ≡ has_pubkey sale pubkey m
keeps-has_pubkey k sale pubkey m = rw (k.sale m, k.pubkey m)

AccessWrite-Finds :
    (sale pubkey : ℕ) (s : RelayState) (w w' : World)
    → AccessWrite w w'
    → Finds (has_pubkey sale pubkey) s w
    → Finds (has_pubkey sale pubkey) s w'
AccessWrite-Finds sale pubkey s w w' (same e) (row, found, state) =
    (row, ap (find (has_pubkey sale pubkey)) e ∙ found, state)
AccessWrite-Finds sale pubkey s w w' (access f p k e) (row, found, state) = (
  (if p row then f row else row),
  ap (find (has_pubkey sale pubkey)) e
      ∙ find-update-some p (has_pubkey sale pubkey) f (keeps-has_pubkey k sale pubkey) w.memberships
          row found,
  elim (p row) as (λ b. (if b then f row else row).relay_state ≡ s) [
    | true ↦ k.relay row ∙ state
    | false ↦ state
  ],
)

-- The relay state that a successful publish of the kind leaves.
abbrev pub acked : ℕ → RelayState → RelayState
acked kind s =
    if kind == put_user_kind then added else if kind == remove_user_kind then removed else s

relay_eq→eq : (a b : RelayState) → relay_eq a b ≡ true → a ≡ b
relay_eq→eq a b h = ground arith

-- The row is written, and the transition folded into the ledger.
written-Finds :
    (now sale pubkey : ℕ) (s : RelayState) (f : Membership → Membership) (row : Membership)
    (effective : Bool) (reason : String) (w : World)
    → ((m : Membership) → has_pubkey sale pubkey (f m) ≡ has_pubkey sale pubkey m)
    → (f row).relay_state ≡ s
    → find (has_pubkey sale pubkey) w.memberships ≡ some row
    → Finds
        (has_pubkey sale pubkey)
        s
        (record_access_transition now row effective reason (update_row row.id f w))
written-Finds now sale pubkey s f row effective reason w keep state found =
    AccessWrite-Finds sale pubkey s (update_row row.id f w) _
      (record_access_transition-AccessWrite now row effective reason (update_row row.id f w))
      (
        f row,
        find-update (λ m. m.id == row.id) (has_pubkey sale pubkey) f keep w.memberships row found
            ((==_iff row.id row.id).1 refl),
        state,
      )

module _ (now sale pubkey kind : ℕ) (row : Membership) (w : World)
    (found : find (has_pubkey sale pubkey) w.memberships ≡ some row) where
  apply_ack-Finds :
      Finds (has_pubkey sale pubkey) (acked kind row.relay_state) (apply_ack now row kind w)
  unfolding apply_ack
  apply_ack-Finds = elim (Bool-cases (kind == put_user_kind)) [
    | inl put ↦ elim (Bool-cases (relay_eq row.relay_state added)) [
      | inl done ↦ rw (put, done) (row, found, relay_eq→eq _ _ done)
      | inr fresh ↦
          rw (put, fresh)
            (written-Finds now sale pubkey added (publish_at now added) row true "access_gained" w
              (λ m. refl) refl found)
    ]
    | inr not_put ↦ elim (Bool-cases (kind == remove_user_kind)) [
      | inl out ↦ elim (Bool-cases (relay_eq row.relay_state removed)) [
        | inl done ↦ rw (not_put, out, done) (row, found, relay_eq→eq _ _ done)
        | inr fresh ↦
            rw (not_put, out, fresh)
              (written-Finds now sale pubkey removed (publish_at now removed) row false
                "eligibility_lost" w (λ m. refl) refl found)
      ]
      | inr not_out ↦ elim (Bool-cases (kind == set_roles_kind)) [
        | inl role ↦
            rw (not_put, not_out, role)
              (written-Finds now sale pubkey row.relay_state (stamp now) row
                (relay_eq row.relay_state added) "role" w (λ m. refl) refl found)
        | inr other ↦ rw (not_put, not_out, other) (row, found, refl)
      ]
    ]
  ]

-- An ACK of a row that is where the ACK would move it does nothing.
apply_ack_done :
    (now kind : ℕ) (row : Membership) (s : RelayState) (w : World)
    → (kind == set_roles_kind) ≡ false
    → row.relay_state ≡ acked kind s
    → apply_ack now row kind w ≡ w
unfolding apply_ack
apply_ack_done now kind row s w other state = elim (Bool-cases (kind == put_user_kind)) [
  | inl put ↦ if-then _ _ put ∙ if-then w _ (ap (λ x. relay_eq x added) (state ∙ if-then _ _ put))
  | inr not_put ↦ if-else _ _ not_put ∙ elim (Bool-cases (kind == remove_user_kind)) [
    | inl out ↦
        if-then _ _ out
        ∙ if-then w _ (ap (λ x. relay_eq x removed) (state ∙ if-else _ _ not_put ∙ if-then _ _ out))
    | inr not_out ↦ if-else _ _ not_out ∙ if-else _ w other
  ]
]

AccessWrite-count :
    (sale pubkey : ℕ) (w w' : World)
    → AccessWrite w w'
    → count (has_pubkey sale pubkey) w'.memberships ≡ count (has_pubkey sale pubkey) w.memberships
AccessWrite-count sale pubkey w w' (same e) = ap (count (has_pubkey sale pubkey)) e
AccessWrite-count sale pubkey w w' (access f p k e) =
    ap (count (has_pubkey sale pubkey)) e
    ∙ count-update (has_pubkey sale pubkey) p f (keeps-has_pubkey k sale pubkey) w.memberships

written-count :
    (now sale pubkey : ℕ) (f : Membership → Membership) (row : Membership) (effective : Bool)
    (reason : String) (w : World)
    → ((m : Membership) → has_pubkey sale pubkey (f m) ≡ has_pubkey sale pubkey m)
    → count
        (has_pubkey sale pubkey)
        (record_access_transition now row effective reason (update_row row.id f w)).memberships
      ≡ count (has_pubkey sale pubkey) w.memberships
written-count now sale pubkey f row effective reason w keep =
    AccessWrite-count sale pubkey (update_row row.id f w) _
      (record_access_transition-AccessWrite now row effective reason (update_row row.id f w))
    ∙ count-update (has_pubkey sale pubkey) _ f keep w.memberships

-- An ACK keeps the rows of a pubkey as many as they were.
apply_ack-count :
    (now sale pubkey kind : ℕ) (row : Membership) (w : World)
    → count (has_pubkey sale pubkey) (apply_ack now row kind w).memberships
      ≡ count (has_pubkey sale pubkey) w.memberships
unfolding apply_ack
apply_ack-count now sale pubkey kind row w = elim (Bool-cases (kind == put_user_kind)) [
  | inl put ↦ elim (Bool-cases (relay_eq row.relay_state added)) [
    | inl there ↦ rw (put, there)
    | inr fresh ↦
        rw (put, fresh)
          (written-count now sale pubkey (publish_at now added) row true "access_gained" w
            (λ m. refl))
  ]
  | inr not_put ↦ elim (Bool-cases (kind == remove_user_kind)) [
    | inl out ↦ elim (Bool-cases (relay_eq row.relay_state removed)) [
      | inl there ↦ rw (not_put, out, there)
      | inr fresh ↦
          rw (not_put, out, fresh)
            (written-count now sale pubkey (publish_at now removed) row false "eligibility_lost" w
              (λ m. refl))
    ]
    | inr not_out ↦ elim (Bool-cases (kind == set_roles_kind)) [
      | inl role ↦
          rw (not_put, not_out, role)
            (written-count now sale pubkey (stamp now) row (relay_eq row.relay_state added) "role" w
              (λ m. refl))
      | inr other ↦ rw (not_put, not_out, other)
    ]
  ]
]

ack_found_twice :
    (now later choice kind sale pubkey : ℕ) (w : World) (o : Option Membership)
    → (kind == set_roles_kind) ≡ false
    → count (has_pubkey sale pubkey) w.memberships ≤ 1
    → find (has_pubkey sale pubkey) w.memberships ≡ o
    → let w' = ack_found now kind o w in
      ack_found later kind (pick_at choice (select (has_pubkey sale pubkey) w'.memberships)) w' ≡ w'
ack_found_twice now later choice kind sale pubkey w none other one e =
    ap (λ o. ack_found later kind o w)
      (pick_at-find choice (has_pubkey sale pubkey) w.memberships one ∙ e)
ack_found_twice now later choice kind sale pubkey w (some row) other one e =
    let (row', found, state) = apply_ack-Finds now sale pubkey kind row w e in
    let w' = apply_ack now row kind w in
    ap (λ o. ack_found later kind o w')
      (pick_at-find choice (has_pubkey sale pubkey) w'.memberships
          (omega (arith, apply_ack-count now sale pubkey kind row w))
        ∙ found)
    ∙ apply_ack_done later kind row' row.relay_state w' other state

-- Where at most one row of the sale has the pubkey, an ACK of an add or of a removal that is delivered
-- twice does what it does once, whatever the database chooses each time.
pub on_publish_ack_idempotent :
    (now later choice choice' sale kind : ℕ) (pubkey : Option ℕ) (ok : Bool) (w : World)
    → (kind == set_roles_kind) ≡ false
    → count (has_pubkey sale (text_of pubkey)) w.memberships ≤ 1
    → on_publish_ack later choice' sale kind pubkey ok
        (on_publish_ack now choice sale kind pubkey ok w)
      ≡ on_publish_ack now choice sale kind pubkey ok w
unfolding on_publish_ack
on_publish_ack_idempotent now later choice choice' sale kind pubkey ok w other one =
    let q = has_pubkey sale (text_of pubkey) in
    let acted = ack_found now kind (pick_at choice (select q w.memberships)) w in
    elim (is_ignored_ack sale kind pubkey ok)
      as (λ b.
        let v = if b then w else acted in
        (if b then v else ack_found later kind (pick_at choice' (select q v.memberships)) v) ≡ v) [
          | true ↦ refl
          | false ↦
              ack_found_twice now later choice' kind sale (text_of pubkey) w
                (pick_at choice (select q w.memberships)) other one
                (sym (pick_at-find choice q w.memberships one))
        ]
