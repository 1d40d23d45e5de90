-- ===== src/Rooms/Eligibility/Recompute.antt =====
-- The recomputes of whole rooms and the three event handlers of eligibility.service.ts.
-- A batch of pubkeys is resolved before a page is worked on; a recompute changes no link, so each is
-- the identity service's answer for its address.
pub mod Frame
pub mod Handlers
use superhero_api.Base.{
  ℕ, suc, Bool, ◌||◌, none, some, List, [], ◌∷◌, ◌++◌, ◌==◌, ltb, if◌then◌else◌, or_else, length,
  select, map, dedup, lookup,
}
use superhero_api.Base.Pages.{each, order_by, pages}
use superhero_api.Rooms.Store.{Room, Membership, TokenBalance, World, find_room}
use superhero_api.Rooms.Config.{Config}
use superhero_api.Rooms.Eligibility.{recompute_member}

-- A loop's world, with the count that it returns.
pub record Recomputed : Type 0 where
  pub world : World
  pub flips : ℕ

abbrev pub count_flip : ℕ → World × Bool → Recomputed
count_flip n (w, flipped) = record { world = w; flips = if flipped then suc n else n }

abbrev pub member_key : Membership → ℕ
member_key m = m.member_address

abbrev pub rows_of : ℕ → Recomputed → List Membership
rows_of sale s = order_by member_key (select (λ m. m.sale_address == sale) s.world.memberships)

-- A row of a page, as the page's query read it.
abbrev pub recompute_row : Room → Recomputed → Membership → Recomputed
recompute_row room s existing = count_flip s.flips (
    recompute_member room existing.member_address (some (some existing)) none
      (some (s.world.pubkey_of existing.member_address)) s.world)

-- recomputeRoom. The fuel covers a page for each row.
unfoldable pub recompute_room : Config → ℕ → World → Recomputed
recompute_room c sale w = elim (find_room sale w) [
  | none ↦ record { world = w; flips = 0 }
  | some room ↦
      pages member_key (rows_of sale) (recompute_row room) c.reconcile_batch_size
        (suc (length w.memberships)) 0 (record { world = w; flips = 0 })
]

-- `Map.set` for each row: a later entry of an address hides an earlier one.
abbrev pub balances_by_address : List TokenBalance → List (ℕ × ℕ)
balances_by_address = each (λ m (b : TokenBalance). (b.holder_address, b.balance) ∷ m) []

abbrev pub rows_by_address : List Membership → List (ℕ × Membership)
rows_by_address = each (λ m (r : Membership). (r.member_address, r) ∷ m) []

abbrev pub holders_of : Room → World → List TokenBalance
holders_of room w = select (λ b. b.token_address == room.token_address) w.balances

abbrev pub roster_of : Room → World → List Membership
roster_of room w = select (λ m. m.sale_address == room.sale_address) w.memberships

-- The union, in the order of its making: positive holders, members, moderators.
abbrev pub union_of : Room → World → List ℕ
union_of room w = dedup (
    map (λ (b : TokenBalance). b.holder_address) (select (λ b. ltb 0 b.balance) (holders_of room w))
    ++ map member_key (roster_of room w)
    ++ room.moderators)

-- One address of the union, with what was loaded before the loop.
abbrev pub recompute_address :
    Room → List (ℕ × ℕ) → List (ℕ × Membership) → Recomputed → ℕ → Recomputed
recompute_address room balances rows s address = count_flip s.flips (
    recompute_member room address (some (lookup address rows))
      (some (some (or_else (lookup address balances) 0))) (some (s.world.pubkey_of address))
      s.world)

-- recomputeRoomFromHolders
unfoldable pub recompute_room_from_holders : ℕ → World → Recomputed
recompute_room_from_holders sale w = elim (find_room sale w) [
  | none ↦ record { world = w; flips = 0 }
  | some room ↦
      each
        (recompute_address room (balances_by_address (holders_of room w))
          (rows_by_address (roster_of room w)))
        (record { world = w; flips = 0 }) (union_of room w)
]

abbrev pub recompute_in : ℕ → World → Room → World
recompute_in address w room = (recompute_member room address none none none w).0

-- The handler of tgr.balance.changed.
unfoldable pub on_balance_changed : ℕ → ℕ → World → World
on_balance_changed token holder w =
    if token == 0 || holder == 0
    then w
    else each (recompute_in holder) w (select (λ (r : Room). r.token_address == token) w.rooms)

-- The handler of tgr.community.upserted.
unfoldable pub on_community_upserted : ℕ → World → World
on_community_upserted sale w = if sale == 0 then w else (recompute_room_from_holders sale w).world

abbrev pub recompute_in_sale : ℕ → World → ℕ → World
recompute_in_sale address w sale = elim (find_room sale w) [
  | none ↦ w
  | some room ↦ recompute_in address w room
]

-- The handler of tgr.link.changed.
unfoldable pub on_link_changed : ℕ → World → World
on_link_changed address w =
    if address == 0
    then w
    else each (recompute_in_sale address) w (
        dedup (
          map (λ (m : Membership). m.sale_address)
            (select (λ m. m.member_address == address) w.memberships)))
