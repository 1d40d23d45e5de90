-- ===== src/Rooms/Eligibility/Recompute/Handlers.antt =====
-- onBalanceChanged of eligibility.service.ts: the holder in every room of the token.
use superhero_api.Base.{
  ℕ, false, ◌||◌, ◌&&◌, Option, none, List, [], ◌∷◌, ◌≡◌, ◌≢◌, refl, sym, ap, ◌∙◌, subst, arith,
  ◌==◌, if-else, select, All,
}
use superhero_api.Base.Pages.{each}
use superhero_api.Base.Pages.Order.{Distinct, Distinct-select}
use superhero_api.Rooms.Store.{Room, World, find_member}
use superhero_api.Rooms.Eligibility.{wants, desired}
use superhero_api.Rooms.Eligibility.Member.{Outcome, recompute_member-Outcome}
use superhero_api.Rooms.Eligibility.Member.Again.{wants-eq}
use superhero_api.Rooms.Eligibility.Recompute.{recompute_in, on_balance_changed}
use superhero_api.Rooms.Eligibility.Recompute.Frame.{
  IsSound, recompute_member-IsSound, recompute_member-SameInputs, recompute_member_apart,
}

abbrev pub sale_of : Room → ℕ
sale_of room = room.sale_address

-- The member's row in the second world is what the first world makes the recompute want.
abbrev pub IsSettled : ℕ → World → World → Room → Type 0
IsSettled address w w' room =
    let before = find_member room.sale_address address w in
    Outcome (desired room address before (wants room address none w) (w.pubkey_of address)) before
      (find_member room.sale_address address w')

sale_apart : (a b c : ℕ) → b ≢ a → (a == b && c == c) ≡ false
sale_apart a b c ne = ground arith

recompute_in_apart :
    (address sale : ℕ) (room : Room) (w : World)
    → IsSound w
    → sale ≢ room.sale_address
    → find_member sale address (recompute_in address w room) ≡ find_member sale address w
recompute_in_apart address sale room w v ne =
    recompute_member_apart room address sale address w v.ids
      (sale_apart room.sale_address sale address ne)

each-recompute_in_apart :
    (address sale : ℕ) (rooms : List Room) (w : World)
    → IsSound w
    → All (λ r. sale_of r ≢ sale) rooms
    → find_member sale address (each (recompute_in address) w rooms) ≡ find_member sale address w
each-recompute_in_apart address sale [] w v h = refl
each-recompute_in_apart address sale (room ∷ rooms) w v (h, hs) =
    each-recompute_in_apart address sale rooms (recompute_in address w room)
      (recompute_member-IsSound room address none none w v) hs
    ∙ recompute_in_apart address sale room w v (λ e. h (sym e))

-- What a recompute in another room leaves to be settled in this one.
IsSettled-earlier :
    (address : ℕ) (other room : Room) (w w' : World)
    → IsSound w
    → sale_of room ≢ sale_of other
    → IsSettled address (recompute_in address w other) w' room
    → IsSettled address w w' room
IsSettled-earlier address other room w w' v ne o =
    let w1 = recompute_in address w other in
    let i = recompute_member-SameInputs other address w in
    let same = recompute_in_apart address room.sale_address other w v ne in
    let o1 =
      subst
        (λ b.
          Outcome (desired room address b (wants room address none w1) (w1.pubkey_of address)) b
            (find_member room.sale_address address w'))
        same o in
    let o2 =
      subst
        (λ e.
          Outcome
            (desired room address (find_member room.sale_address address w) e
              (w1.pubkey_of address))
            (find_member room.sale_address address w) (find_member room.sale_address address w'))
        (wants-eq room address w w1 i.balances) o1 in
    subst
      (λ k.
        Outcome
          (desired room address (find_member room.sale_address address w)
            (wants room address none w) k)
          (find_member room.sale_address address w) (find_member room.sale_address address w'))
      (ap (λ (f : ℕ → Option ℕ). f address) i.pubkey_of) o2

All-IsSettled-earlier :
    (address : ℕ) (other : Room) (rooms : List Room) (w w' : World)
    → IsSound w
    → All (λ r. sale_of r ≢ sale_of other) rooms
    → All (IsSettled address (recompute_in address w other) w') rooms
    → All (IsSettled address w w') rooms
All-IsSettled-earlier address other [] w w' v apart h = tt
All-IsSettled-earlier address other (room ∷ rooms) w w' v (ne, apart) (h, hs) = (
  IsSettled-earlier address other room w w' v ne h,
  All-IsSettled-earlier address other rooms w w' v apart hs,
)

each-recompute_in :
    (address : ℕ) (rooms : List Room) (w : World)
    → IsSound w
    → Distinct sale_of rooms
    → All (IsSettled address w (each (recompute_in address) w rooms)) rooms
each-recompute_in address [] w v d = tt
each-recompute_in address (room ∷ rooms) w v (apart, d) =
    let w1 = recompute_in address w room in
    let v1 = recompute_member-IsSound room address none none w v in
    (
      subst
          (λ after.
            Outcome
              (desired room address (find_member room.sale_address address w)
                (wants room address none w) (w.pubkey_of address))
              (find_member room.sale_address address w) after)
          (sym (each-recompute_in_apart address room.sale_address rooms w1 v1 apart))
          (recompute_member-Outcome room address w),
      All-IsSettled-earlier address room rooms w (each (recompute_in address) w1 rooms) v apart
          (each-recompute_in address rooms w1 v1 d),
    )

-- Where ids are distinct and below the next one, and rooms have distinct sales, a changed balance
-- settles the holder in every room of the token: the row holds what the world before wanted, or
-- there is still none and the holder is kept out.
pub on_balance_changed-IsSettled :
    (token holder : ℕ) (w : World)
    → IsSound w
    → Distinct sale_of w.rooms
    → (token == 0 || holder == 0) ≡ false
    → All
        (IsSettled holder w (on_balance_changed token holder w))
        (select (λ (r : Room). r.token_address == token) w.rooms)
unfolding on_balance_changed
on_balance_changed-IsSettled token holder w v d set =
    let rooms = select (λ (r : Room). r.token_address == token) w.rooms in
    subst (λ w'. All (IsSettled holder w w') rooms)
      (sym (if-else w (each (recompute_in holder) w rooms) set))
      (each-recompute_in holder rooms w v
        (Distinct-select sale_of (λ (r : Room). r.token_address == token) w.rooms d))
