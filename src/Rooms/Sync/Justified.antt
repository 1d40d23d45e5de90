-- ===== src/Rooms/Sync/Justified.antt =====
-- publishForRow of membership-sync.service.ts: what must hold where a job is published.
use superhero_api.Base.{
  ℕ, Bool, true, false, not, Option, none, some, ◌∷◌, ◌≡◌, ◌≢◌, refl, sym, ap, subst, ◌∙◌, ◌⊎◌, inl,
  inr, arith, if◌then◌else◌, includes, Bool-cases, if-then, if-else,
}
use superhero_api.Rooms.Store.{
  Role, admin, is_admin, RelayState, pending_add, pending_remove, added, removed, Room, Membership,
  Job, World, find_room, find_token, group_id_for,
}
use superhero_api.Rooms.Config.{Config, is_configured_admin}
use superhero_api.Rooms.Eligibility.{is_set}
use superhero_api.Rooms.Missing.{is_missing}
use superhero_api.Rooms.Nip29.{put_user, remove_user}
use superhero_api.Rooms.Sync.{
  is_deleted, muted_of, new_job, maybe_enqueue_add, maybe_enqueue_remove, by_state, publish_pending,
  publish_for_row,
}

-- The role that a put-user carries.
abbrev pub published_role : Role → Option Role
published_role role = if is_admin role then some admin else none

-- An add is for a linked, wanted member whom the room does not mute; a removal for a linked member
-- that is no configured admin.
pub data Justified (c : Config) (room : Option Room) (group : ℕ) (row : Membership) (job : Job)
    : Type 0 where
  adds :
      (pubkey : ℕ)
      → row.relay_state ≡ pending_add
      → row.member_pubkey ≡ some pubkey
      → pubkey ≢ 0
      → includes row.member_address (muted_of room) ≡ false
      → job
        ≡ new_job
            (put_user group pubkey (published_role row.role))
            group
            row.sale_address
            "membership:membership-add"
      → Justified c room group row job
  removes :
      (pubkey : ℕ)
      → row.relay_state ≡ pending_remove
      → row.member_pubkey ≡ some pubkey
      → pubkey ≢ 0
      → is_configured_admin c (some pubkey) ≡ false
      → job
        ≡ new_job (remove_user group pubkey) group row.sale_address "membership:membership-remove"
      → Justified c room group row job

-- A call enqueues nothing and says so, or one job that `P` holds of.
pub data Publishes (P : Job → Type 0) (w : World) (r : World × Bool) : Type 0 where
  nothing : r.1 ≡ false → r.0.queue ≡ w.queue → Publishes P w r
  one : (job : Job) → r.1 ≡ true → r.0.queue ≡ job ∷ w.queue → P job → Publishes P w r

pub Publishes-map :
    {P Q : Job → Type 0} (w : World) (r : World × Bool)
    → ((job : Job) → P job → Q job)
    → Publishes P w r
    → Publishes Q w r
Publishes-map w r f (nothing e q) = nothing e q
Publishes-map w r f (one job e q h) = one job e q (f job h)

linked : (pubkey : Option ℕ) → not (is_set pubkey) ≡ false → (a : ℕ) × (pubkey ≡ some a) × (a ≢ 0)
linked none h = cc
linked (some a) h = (a, refl, ground arith)

maybe_enqueue_add-Publishes :
    (c : Config) (now : ℕ) (row : Membership) (room : Option Room) (group : ℕ) (w : World)
    → row.relay_state ≡ pending_add
    → Publishes (Justified c room group row) w (maybe_enqueue_add now row room group w)
unfolding maybe_enqueue_add
maybe_enqueue_add-Publishes c now row room group w e =
    elim (Bool-cases (not (is_set row.member_pubkey))) [
      | inl unlinked ↦ rw unlinked (nothing refl refl)
      | inr set ↦ elim (Bool-cases (is_missing now row.sale_address w.missing).0) [
        | inl held ↦ rw (set, held) (nothing refl refl)
        | inr free ↦ elim (Bool-cases (includes row.member_address (muted_of room))) [
          | inl muted ↦ rw (set, free, muted) (nothing refl refl)
          | inr heard ↦
              let (a, p, pos) = linked row.member_pubkey set in
              rw (set, free, heard) (one _ refl refl (adds a e p pos heard (rw p)))
        ]
      ]
    ]

maybe_enqueue_remove-Publishes :
    (c : Config) (row : Membership) (room : Option Room) (group : ℕ) (w : World)
    → row.relay_state ≡ pending_remove
    → Publishes (Justified c room group row) w (maybe_enqueue_remove c row group w)
unfolding maybe_enqueue_remove
maybe_enqueue_remove-Publishes c row room group w e =
    elim (Bool-cases (not (is_set row.member_pubkey))) [
      | inl unlinked ↦ rw unlinked (nothing refl refl)
      | inr set ↦ elim (Bool-cases (is_configured_admin c row.member_pubkey)) [
        | inl exempt ↦ rw (set, exempt) (nothing refl refl)
        | inr open_to_removal ↦
            let (a, p, pos) = linked row.member_pubkey set in
            rw (set, open_to_removal)
              (one _ refl refl
                (removes a e p pos (ap (is_configured_admin c) (sym p) ∙ open_to_removal) (rw p)))
      ]
    ]

relay-cases :
    (s : RelayState) → (s ≡ pending_add) ⊎ ((s ≡ pending_remove) ⊎ ((s ≡ added) ⊎ (s ≡ removed)))
relay-cases pending_add = inl refl
relay-cases pending_remove = inr (inl refl)
relay-cases added = inr (inr (inl refl))
relay-cases removed = inr (inr (inr refl))

pub publish_pending-Publishes :
    (c : Config) (now : ℕ) (row : Membership) (room : Option Room) (group : ℕ) (w : World)
    → Publishes (Justified c room group row) w (publish_pending c now row room group w)
unfolding publish_pending
publish_pending-Publishes c now row room group w = elim (relay-cases row.relay_state) [
  | inl e ↦
      subst (Publishes P w) (sym (ap (λ s. by_state s adding removing (w, false)) e))
        (maybe_enqueue_add-Publishes c now row room group w e)
  | inr (inl e) ↦
      subst (Publishes P w) (sym (ap (λ s. by_state s adding removing (w, false)) e))
        (maybe_enqueue_remove-Publishes c row room group w e)
  | inr (inr (inl e)) ↦
      subst (Publishes P w) (sym (ap (λ s. by_state s adding removing (w, false)) e))
        (nothing refl refl)
  | inr (inr (inr e)) ↦
      subst (Publishes P w) (sym (ap (λ s. by_state s adding removing (w, false)) e))
        (nothing refl refl)
]
  where
    P : Job → Type 0
    P = Justified c room group row

    adding : World × Bool
    adding = maybe_enqueue_add now row room group w

    removing : World × Bool
    removing = maybe_enqueue_remove c row group w

is_missing-rows :
    (now : ℕ) (row : Membership) (room : Option Room) (group : ℕ) (w : World)
    → (maybe_enqueue_add now row room group w).0.memberships ≡ w.memberships
unfolding maybe_enqueue_add
is_missing-rows now row room group w = ground arith

-- Publishing writes no row, room or token.
pub record LeavesTables (w w' : World) : Type 0 where
  pub memberships : w'.memberships ≡ w.memberships
  pub rooms : w'.rooms ≡ w.rooms
  pub tokens : w'.tokens ≡ w.tokens

pub publish_pending-LeavesTables :
    (c : Config) (now : ℕ) (row : Membership) (room : Option Room) (group : ℕ) (w : World)
    → LeavesTables w (publish_pending c now row room group w).0
unfolding publish_pending maybe_enqueue_add maybe_enqueue_remove
publish_pending-LeavesTables c now row room group w = ground arith

-- The publisher enqueues at most one job for a row, none for a deleted room, and what it enqueues
-- is justified by the row, the room and the configured admins; no row, room or token changes.
pub publish_for_row-Publishes :
    (c : Config) (now : ℕ) (row : Membership) (w : World)
    → Publishes
        (λ job.
          (is_deleted (find_room row.sale_address w) ≡ false)
          × Justified c
              (find_room row.sale_address w)
              (group_id_for row.sale_address (find_token row.sale_address w))
              row
              job)
        w
        (publish_for_row c now row w)
      × LeavesTables w (publish_for_row c now row w).0
unfolding publish_for_row
publish_for_row-Publishes c now row w = elim (Bool-cases (is_deleted room)) [
  | inl gone ↦
      subst (λ r. Publishes Q w r × LeavesTables w r.0) (sym (if-then (w, false) sent gone))
        (nothing refl refl, record { memberships = refl; rooms = refl; tokens = refl })
  | inr live ↦
      subst (λ r. Publishes Q w r × LeavesTables w r.0) (sym (if-else (w, false) sent live))
        (
          Publishes-map w sent (λ job j. (live, j))
              (publish_pending-Publishes c now row room group w),
          publish_pending-LeavesTables c now row room group w,
        )
]
  where
    room : Option Room
    room = find_room row.sale_address w

    group : ℕ
    group = group_id_for row.sale_address (find_token row.sale_address w)

    sent : World × Bool
    sent = publish_pending c now row room group w

    Q : Job → Type 0
    Q job = (is_deleted room ≡ false) × Justified c room group row job
