-- ===== src/Rooms/Sync/Deleted.antt =====
-- handleDeletedRoom of membership-sync.service.ts: its job, and the rows that it retires.
pub mod Ledgered
use superhero_api.Base.{
  ℕ, Bool, true, false, not, ◌&&◌, ◌||◌, List, [], ◌∷◌, ◌≡◌, ◌≢◌, refl, sym, ap, ◌∙◌, subst, inl,
  inr, arith, ◌==◌, if◌then◌else◌, if-then, if-else, Bool-cases, is_some, update, select, All,
  All-update, All-select, update-update,
}
use superhero_api.Base.Pages.{each}
use superhero_api.Rooms.Store.{
  removed, relay_eq, is_granted, Membership, World, update_row, group_id_for, find_token,
}
use superhero_api.Base.Todo.{Covers, Covers-select, Covers-none}
use superhero_api.Rooms.Rows.{row_id, HasIds, KeepsKey}
use superhero_api.Rooms.Nip29.{delete_group}
use superhero_api.Rooms.Access.{arm, or_access_lost, on_access_lost, record_access_transition}
use superhero_api.Rooms.Sync.{new_job, enqueue, publish_at, retire, handle_deleted_room}
use superhero_api.Rooms.Sync.Ack.Ledgered.{publish_at-KeepsKey}
use superhero_api.Rooms.Sync.Retired.{Retires, retire-Retired}

-- A row that the deletion has still to retire.
abbrev pub is_left : ℕ → Membership → Bool
is_left sale m = m.sale_address == sale && not (relay_eq m.relay_state removed)

Covers-update :
    (sale : ℕ) (row : Membership) (todo rows : List Membership) (f : Membership → Membership)
    → Retires f
    → Covers row_id (is_left sale) (row ∷ todo) rows
    → Covers row_id (is_left sale) todo (update (λ m. m.id == row.id) f rows)
Covers-update sale row todo [] f k h = tt
Covers-update sale row todo (x ∷ xs) f k (h, hs) =
    (ground (arith, k.relay x, h), Covers-update sale row todo xs f k hs)

-- No row of another room has an id that is still to come.
abbrev IsOther : ℕ → Membership → List Membership → Type 0
IsOther sale r = All (λ m. (m.sale_address == sale || not (m.id == r.id)) ≡ true)

IsOther-update :
    (sale : ℕ) (r row : Membership) (rows : List Membership) (f : Membership → Membership)
    → Retires f
    → IsOther sale r rows
    → IsOther sale r (update (λ m. m.id == row.id) f rows)
IsOther-update sale r row rows f k h =
    All-update (λ m. m.id == row.id) f (λ m. (m.sale_address == sale || not (m.id == r.id)) ≡ true)
      (λ m e. rw (k.keys.sale m, k.keys.id m) e) rows h

-- The rows of the other rooms.
abbrev pub others : ℕ → List Membership → List Membership
others sale = select (λ m. not (m.sale_address == sale))

others-update :
    (sale : ℕ) (row : Membership) (rows : List Membership) (f : Membership → Membership)
    → Retires f
    → IsOther sale row rows
    → others sale (update (λ m. m.id == row.id) f rows) ≡ others sale rows
others-update sale row [] f k h = refl
others-update sale row (x ∷ xs) f k (h, hs) =
    ground (arith, k.keys.sale x, h, others-update sale row xs f k hs)

IsOther-here :
    (sale : ℕ) (x : Membership) (xs : List Membership)
    → (x.sale_address == sale) ≡ true
    → All (λ m. m.id ≢ x.id) xs
    → IsOther sale x (x ∷ xs)
IsOther-here sale x xs e apart = (ground (arith, e), go xs apart)
  where
    go : (ys : List Membership) → All (λ m. m.id ≢ x.id) ys → IsOther sale x ys
    go [] h = tt
    go (y ∷ ys) (h, hs) = (ground (arith, h), go ys hs)

IsOther-later :
    (sale : ℕ) (x : Membership) (xs todo : List Membership)
    → All (λ r. r.id ≢ x.id) todo
    → All (λ r. IsOther sale r xs) todo
    → All (λ r. IsOther sale r (x ∷ xs)) todo
IsOther-later sale x xs [] apart h = tt
IsOther-later sale x xs (r ∷ rs) (ne, apart) (h, hs) =
    ((ground (arith, ne), h), IsOther-later sale x xs rs apart hs)

All-IsOther :
    (sale : ℕ) (rows : List Membership)
    → HasIds rows
    → All (λ r. IsOther sale r rows) (select (is_left sale) rows)
All-IsOther sale [] d = tt
All-IsOther sale (x ∷ xs) (apart, d) =
    let rest =
      IsOther-later sale x xs (select (is_left sale) xs)
        (All-select (λ m. m.id ≢ x.id) (is_left sale) xs apart) (All-IsOther sale xs d) in
    elim (Bool-cases (is_left sale x)) [
      | inl left ↦
          subst (All (λ r. IsOther sale r (x ∷ xs))) (sym (if-then _ _ left))
            (IsOther-here sale x xs (ground (arith, left)) apart, rest)
      | inr out ↦ subst (All (λ r. IsOther sale r (x ∷ xs))) (sym (if-else _ _ out)) rest
    ]

All-IsOther-update :
    (sale : ℕ) (row : Membership) (rows todo : List Membership) (f : Membership → Membership)
    → Retires f
    → All (λ r. IsOther sale r rows) todo
    → All (λ r. IsOther sale r (update (λ m. m.id == row.id) f rows)) todo
All-IsOther-update sale row rows [] f k h = tt
All-IsOther-update sale row rows (r ∷ rs) f k (h, hs) =
    (IsOther-update sale r row rows f k h, All-IsOther-update sale row rows rs f k hs)

each-retire-Covers :
    (now sale : ℕ) (todo : List Membership) (w : World)
    → Covers row_id (is_left sale) todo w.memberships
    → Covers row_id (is_left sale) [] (each (retire now) w todo).memberships
each-retire-Covers now sale [] w h = h
each-retire-Covers now sale (row ∷ todo) w h =
    let r = retire-Retired now w row in
    each-retire-Covers now sale todo (retire now w row) (
      subst (Covers row_id (is_left sale) todo) (sym r.rows)
        (Covers-update sale row todo w.memberships r.change r.is_retirement h))

each-retire-others :
    (now sale : ℕ) (todo : List Membership) (w : World)
    → All (λ r. IsOther sale r w.memberships) todo
    → others sale (each (retire now) w todo).memberships ≡ others sale w.memberships
each-retire-others now sale [] w h = refl
each-retire-others now sale (row ∷ todo) w (h, hs) =
    let r = retire-Retired now w row in
    each-retire-others now sale todo (retire now w row) (
      subst (λ rows. All (λ x. IsOther sale x rows) todo) (sym r.rows)
        (All-IsOther-update sale row w.memberships todo r.change r.is_retirement hs))
    ∙ ap (others sale) r.rows
    ∙ others-update sale row w.memberships r.change r.is_retirement h

each-retire_quiet :
    (now : ℕ) (todo : List Membership) (w : World)
    → let w' = each (retire now) w todo in
      (w'.queue ≡ w.queue) × (w'.emitted ≡ w.emitted) × (w'.ledger ≡ w.ledger)
each-retire_quiet now [] w = (refl, refl, refl)
each-retire_quiet now (row ∷ todo) w =
    let r = retire-Retired now w row in
    let (q, e, l) = each-retire_quiet now todo (retire now w row) in
    (q ∙ r.queue, e ∙ r.emitted, l ∙ r.ledger)

-- Where ids are distinct, the deletion of a room enqueues one job, which deletes the group, leaves
-- every row of the room removed and those of the other rooms as they were, and records and emits
-- no change of access.
pub handle_deleted_room_lem :
    (now sale : ℕ) (w : World)
    → HasIds w.memberships
    → let w' = handle_deleted_room now sale w in
      let group = group_id_for sale (find_token sale w) in
      (w'.queue ≡ new_job (delete_group group) group sale "membership:community-deleted" ∷ w.queue)
      × All
          (λ m. (m.sale_address == sale && not (relay_eq m.relay_state removed)) ≡ false)
          w'.memberships
      × (others sale w'.memberships ≡ others sale w.memberships)
      × (w'.emitted ≡ w.emitted)
      × (w'.ledger ≡ w.ledger)
unfolding handle_deleted_room
handle_deleted_room_lem now sale w ids =
    let group = group_id_for sale (find_token sale w) in
    let w1 = enqueue (delete_group group) group sale "membership:community-deleted" w in
    let todo = select (is_left sale) w.memberships in
    let (q, e, l) = each-retire_quiet now todo w1 in
    (
      q,
      Covers-none row_id (is_left sale) _
          (each-retire-Covers now sale todo w1 (Covers-select row_id (is_left sale) w.memberships)),
      each-retire-others now sale todo w1 (All-IsOther sale w.memberships ids),
      e,
      l,
    )
