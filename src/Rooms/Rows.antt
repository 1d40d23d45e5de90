-- ===== src/Rooms/Rows.antt =====
-- Lemmas on the membership table: rows are found by sale and member, and written by id.
use superhero_api.Base.{
  ℕ, suc, ◌<◌, length, ltb, select, Bool, true, false, ◌&&◌, some, List, ◌≡◌, arith, ◌==◌, find,
  update, find-update,
}
use superhero_api.Base.Keys
use superhero_api.Base.Pages.{order_by, above, Ascends, length-order_by, length-select-le}
use superhero_api.Base.Pages.Order.{Distinct, order_by-Ascends, Distinct-select}
use superhero_api.Rooms.Store.{Membership, World, is_member}

-- No two rows share their id.
abbrev pub HasIds : List Membership → Type 0
HasIds = Distinct (λ (m : Membership). m.id)

abbrev pub row_id : Membership → ℕ
row_id m = m.id

-- A change of columns other than the id and the key.
pub record KeepsKey (f : Membership → Membership) : Type 0 where
  pub sale : (m : Membership) → (f m).sale_address ≡ m.sale_address
  pub address : (m : Membership) → (f m).member_address ≡ m.member_address
  pub id : (m : Membership) → (f m).id ≡ m.id

is_member_apart :
    (sale address sale' address' : ℕ) (x : Membership)
    → (sale == sale' && address == address') ≡ false
    → is_member sale address x ≡ true
    → is_member sale' address' x ≡ false
is_member_apart sale address sale' address' x h e = ground arith

module _ {f : Membership → Membership} (k : KeepsKey f) where
  pub keeps-is_member :
      (sale address : ℕ) (m : Membership) → is_member sale address (f m) ≡ is_member sale address m
  keeps-is_member sale address m = rw (k.sale m, k.address m)

  pub HasIds-update :
      (p : Membership → Bool) (rows : List Membership) → HasIds rows → HasIds (update p f rows)
  HasIds-update p rows = Keys.Distinct-update row_id f k.id p rows

  -- The row found is seen changed where the write selects it.
  pub find-write_self :
      (p : Membership → Bool) (sale address : ℕ) (rows : List Membership) (row : Membership)
      → find (is_member sale address) rows ≡ some row
      → p row ≡ true
      → find (is_member sale address) (update p f rows) ≡ some (f row)
  find-write_self p sale address rows row e h =
      find-update p (is_member sale address) f (keeps-is_member sale address) rows row e h

  -- Another member's row is found as before.
  pub find-write_other :
      (r : Membership → Bool) (sale address sale' address' : ℕ) (rows : List Membership)
      (row : Membership)
      → HasIds rows
      → find (is_member sale address) rows ≡ some row
      → (sale == sale' && address == address') ≡ false
      → find (is_member sale' address') (update (Keys.by_id row_id row.id r) f rows)
        ≡ find (is_member sale' address') rows
  find-write_other r sale address sale' address' rows row ids e h =
      Keys.find-write_other row_id f (is_member sale address) (is_member sale' address') r
        (keeps-is_member sale' address') (λ x. is_member_apart sale address sale' address' x h) rows
        row ids e

-- The second world's rows are those of the first, written in columns other than the keys.
pub data Writes (w w' : World) : Type 0 where
  same : w'.memberships ≡ w.memberships → Writes w w'
  write :
      (f : Membership → Membership) (p : Membership → Bool)
      → KeepsKey f
      → w'.memberships ≡ update p f w.memberships
      → Writes w w'

-- A query by id over the table ascends, and is no longer than the table.
pub query-Ascends :
    (p : Membership → Bool) (c : ℕ) (rows : List Membership)
    → HasIds rows
    → Ascends row_id c (above row_id c (order_by row_id (select p rows)))
query-Ascends p c rows ids =
    order_by-Ascends row_id c (select p rows) (Distinct-select row_id p rows ids)

pub query-length :
    (p : Membership → Bool) (c : ℕ) (rows : List Membership)
    → length (above row_id c (order_by row_id (select p rows))) < suc (length rows)
query-length p c rows = omega (
  arith,
  length-select-le (λ r. ltb c (row_id r)) (order_by row_id (select p rows)),
  length-order_by row_id (select p rows),
  length-select-le p rows,
)
