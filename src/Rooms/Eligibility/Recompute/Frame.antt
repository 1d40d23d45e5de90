-- ===== src/Rooms/Eligibility/Recompute/Frame.antt =====
-- recomputeMember of eligibility.service.ts: what it does to the table's keys and to other members.
use superhero_api.Base.{
  ℕ, suc, ◌<◌, Bool, true, false, not, ◌&&◌, Option, none, some, List, [], ◌∷◌, ◌++◌, ◌≡◌, ◌≢◌,
  refl, sym, ap, ◌∙◌, subst, inl, inr, arith, ◌==◌, if◌then◌else◌, Bool-cases, find, update, All,
  All-update, All-append,
}
use superhero_api.Rooms.Store.{bool_eq, Room, Membership, World, is_member, find_member}
use superhero_api.Rooms.Rows.{HasIds, HasIds-update, find-write_other, KeepsKey}
use superhero_api.Rooms.Eligibility.{
  Desired, is_changed, with_desired, new_row, upsert_membership, announce, settle, recompute_member,
}

-- Ids are distinct, and the next one is above them.
pub record IsSound (w : World) : Type 0 where
  pub ids : HasIds w.memberships
  pub below : All (λ m. m.id < w.next_id) w.memberships

-- What a recompute does to the world: nothing that others see, an update of the row found, or a new
-- row at the end.
data Change (sale address : ℕ) (w w' : World) : Type 0 where
  none_made : w'.memberships ≡ w.memberships → w'.next_id ≡ w.next_id → Change sale address w w'
  updated :
      (row : Membership) (f : Membership → Membership)
      → KeepsKey f
      → find_member sale address w ≡ some row
      → w'.memberships ≡ update (λ m. m.id == row.id) f w.memberships
      → w'.next_id ≡ w.next_id
      → Change sale address w w'
  inserted :
      (row : Membership)
      → row.id ≡ w.next_id
      → row.sale_address ≡ sale
      → row.member_address ≡ address
      → w'.memberships ≡ w.memberships ++ row ∷ List.[]
      → w'.next_id ≡ suc w.next_id
      → Change sale address w w'

-- What the recomputes read besides the members' rows.
pub record SameInputs (w w' : World) : Type 0 where
  pub rooms : w'.rooms ≡ w.rooms
  pub balances : w'.balances ≡ w.balances
  pub pubkey_of : w'.pubkey_of ≡ w.pubkey_of

settle-SameInputs :
    (sale address : ℕ) (current : Option Membership) (d : Desired) (w : World)
    → SameInputs w (settle sale address current d w).0
unfolding settle announce upsert_membership
settle-SameInputs sale address none d w = ground arith
settle-SameInputs sale address (some row) d w = ground arith

with_desired-KeepsKey : (d : Desired) → KeepsKey (with_desired d)
with_desired-KeepsKey d = record { sale = λ m. refl; address = λ m. refl; id = λ m. refl }

announce_table :
    (sale address : ℕ) (b : Bool) (d : Desired) (w : World)
    → ((announce sale address b d w).memberships ≡ w.memberships)
      × ((announce sale address b d w).next_id ≡ w.next_id)
unfolding announce
announce_table sale address b d w = ground arith

settle-Change :
    (sale address : ℕ) (current : Option Membership) (d : Desired) (w : World)
    → find_member sale address w ≡ current
    → Change sale address w (settle sale address current d w).0
unfolding settle upsert_membership
settle-Change sale address none d w e =
    let flip = not (bool_eq false d.eligible) in
    let w1 = upsert_membership sale address d none w in
    let (m, n) = announce_table sale address flip d w1 in
    let still : World × Bool = (w, false) in
    let told : World × Bool = (announce sale address flip d w1, flip) in
    elim (not d.eligible) as (λ b. Change sale address w (if b then still else told).0) [
      | true ↦ none_made refl refl
      | false ↦ inserted (new_row w.next_id sale address d) refl refl refl m n
    ]
settle-Change sale address (some row) d w e = elim (Bool-cases (is_changed (some row) d)) [
  | inl differs ↦
      let flip = not (bool_eq row.eligible d.eligible) in
      let w1 = upsert_membership sale address d (some row) w in
      let (m, n) = announce_table sale address flip d w1 in
      rw differs (updated row (with_desired d) (with_desired-KeepsKey d) e m n)
  | inr same ↦ rw same (none_made refl refl)
]

below-ne :
    (row : Membership) (n : ℕ)
    → row.id ≡ n
    → (rows : List Membership) → All (λ m. m.id < n) rows
    → All (λ m. m.id ≢ row.id) rows
below-ne row n e [] h = tt
below-ne row n e (x ∷ xs) (h, hs) = (omega (arith, e, h), below-ne row n e xs hs)

below_suc :
    (n : ℕ) (rows : List Membership) → All (λ m. m.id < n) rows → All (λ m. m.id < suc n) rows
below_suc n [] h = tt
below_suc n (x ∷ xs) (h, hs) = (omega (arith, h), below_suc n xs hs)

HasIds-append :
    (row : Membership) (rows : List Membership)
    → HasIds rows
    → All (λ m. m.id ≢ row.id) rows
    → HasIds (rows ++ row ∷ [])
HasIds-append row [] d h = (tt, tt)
HasIds-append row (x ∷ xs) (apart, d) (h, hs) = (
  All-append (λ m. m.id ≢ x.id) xs (row ∷ []) apart (ground (arith, h), tt),
  HasIds-append row xs d hs,
)

update-true :
    (id : ℕ) (f : Membership → Membership) (rows : List Membership)
    → update (λ m. m.id == id) f rows ≡ update (λ m. m.id == id && true) f rows
update-true id f [] = refl
update-true id f (x ∷ xs) = ground (arith, update-true id f xs)

find-append_miss :
    (q : Membership → Bool) (rows : List Membership) (row : Membership)
    → q row ≡ false
    → find q (rows ++ row ∷ []) ≡ find q rows
find-append_miss q [] row e = ground (arith, e)
find-append_miss q (x ∷ xs) row e = ground (arith, find-append_miss q xs row e)

Change-IsSound :
    (sale address : ℕ) (w w' : World) → Change sale address w w' → IsSound w → IsSound w'
Change-IsSound sale address w w' (none_made m n) v = record {
  ids = subst HasIds (sym m) v.ids;
  below = rw (m, n) v.below;
}
Change-IsSound sale address w w' (updated row f k e m n) v = record {
  ids = subst HasIds (sym m) (HasIds-update k (λ x. x.id == row.id) w.memberships v.ids);
  below =
      rw (m, n)
        (All-update (λ x. x.id == row.id) f (λ x. x.id < w.next_id) (λ x h. rw (k.id x) h)
          w.memberships v.below);
}
Change-IsSound sale address w w' (inserted row id s a m n) v = record {
  ids =
      subst HasIds (sym m)
        (HasIds-append row w.memberships v.ids (below-ne row w.next_id id w.memberships v.below));
  below =
      rw (m, n)
        (All-append (λ x. x.id < suc w.next_id) w.memberships (row ∷ [])
          (below_suc w.next_id w.memberships v.below) (omega (arith, id), tt));
}

-- Another member's row is found as before.
Change-find_member :
    (sale address sale' address' : ℕ) (w w' : World)
    → Change sale address w w'
    → HasIds w.memberships
    → (sale == sale' && address == address') ≡ false
    → find_member sale' address' w' ≡ find_member sale' address' w
Change-find_member sale address sale' address' w w' (none_made m n) ids other =
    ap (find (is_member sale' address')) m
Change-find_member sale address sale' address' w w' (updated row f k e m n) ids other =
    ap (find (is_member sale' address')) m
    ∙ ap (λ rows. find (is_member sale' address') rows) (update-true row.id f w.memberships)
    ∙ find-write_other k (λ x. true) sale address sale' address' w.memberships row ids e other
Change-find_member sale address sale' address' w w' (inserted row id s a m n) ids other =
    ap (find (is_member sale' address')) m
    ∙ find-append_miss (is_member sale' address') w.memberships row (
        ap (λ x. x == sale' && row.member_address == address') s
        ∙ ap (λ x. sale == sale' && x == address') a
        ∙ other)

-- A recompute keeps the table sound, whatever it is given for the balance and the pubkey.
pub recompute_member-IsSound :
    (room : Room) (address : ℕ) (balance_raw pubkey : Option (Option ℕ)) (w : World)
    → IsSound w
    → IsSound (recompute_member room address none balance_raw pubkey w).0
unfolding recompute_member
recompute_member-IsSound room address balance_raw pubkey w =
    Change-IsSound room.sale_address address w _
      (settle-Change room.sale_address address _ _ w refl)

pub recompute_member-SameInputs :
    (room : Room) (address : ℕ) (w : World)
    → SameInputs w (recompute_member room address none none none w).0
unfolding recompute_member
recompute_member-SameInputs room address w = settle-SameInputs room.sale_address address _ _ w

-- Over a table with distinct ids, the recompute of one member leaves every other member's row in
-- every room as it was.
pub recompute_member_apart :
    (room : Room) (address sale' address' : ℕ) (w : World)
    → HasIds w.memberships
    → (room.sale_address == sale' && address == address') ≡ false
    → find_member sale' address' (recompute_member room address none none none w).0
      ≡ find_member sale' address' w
unfolding recompute_member
recompute_member_apart room address sale' address' w =
    Change-find_member room.sale_address address sale' address' w _
      (settle-Change room.sale_address address _ _ w refl)
