-- ===== src/Rooms/Tests/Identity.antt =====
-- Runs of the identity service: links below 10 are malformed, those from 100 on another form.
use superhero_api.Base.{
  ℕ, ◌+◌, ◌%◌, true, false, Option, none, some, List, [], ◌∷◌, ◌≡◌, refl, arith, Bool-cases, inl,
  inr, ◌==◌, ltb, if◌then◌else◌, includes, lookup,
}
use superhero_api.Base.Pages.Order.{Distinct}
use superhero_api.Rooms.Store.{Membership, World}
use superhero_api.Rooms.Identity.{
  Account, Cache, resolved, set_cache_entry, get_pubkey_for_address, get_address_for_pubkey,
  reresolve_address,
}
use superhero_api.Rooms.Identity.Batch.{get_pubkeys_for_addresses}
use superhero_api.Rooms.Identity.Batch.Resolved.{get_pubkeys_for_addresses-resolved}
use superhero_api.Rooms.Identity.Current.{IsCoherent, IsMirrored, reresolve_address-IsCoherent}
use superhero_api.Rooms.Identity.Reverse.{IsAnswer, get_address_for_pubkey-IsAnswer}
use superhero_api.Rooms.Tests.{world, fresh_row}

abbrev normal_form : ℕ → Option ℕ
normal_form t = if ltb t 10 then none else if ltb t 100 then some t else some (10 + t % 90)

normal_form_idem : (t h : ℕ) → normal_form t ≡ some h → normal_form h ≡ some h
normal_form_idem t h e = ground arith

-- Address 1 has the link 47 in its other form, address 2 has none, and 3 has 60.
abbrev table : List Account
table =
    record { address = 1; link = some 127 }
    ∷ record { address = 2; link = none }
    ∷ record { address = 3; link = some 60 }
    ∷ []

abbrev moved : List Account
moved =
    record { address = 1; link = none }
    ∷ record { address = 2; link = none }
    ∷ record { address = 3; link = some 60 }
    ∷ []

table_unique : Distinct (λ (a : Account). a.address) table
table_unique = ((λ e. omega arith, (λ e. omega arith, tt)), ((λ e. omega arith, tt), (tt, tt)))

-- The cache knows address 1.
abbrev known : Cache
known = record {
  pubkey = λ a. if a == 1 then some 47 else none;
  address = λ h. if h == 47 then some 1 else none;
}

known-IsCoherent : IsCoherent normal_form table known
unfolding resolved
known-IsCoherent = record { back = λ h a e. ground arith; current = known_current }
  where
    known_current : (a h : ℕ) → known.pubkey a ≡ some h → resolved normal_form a table ≡ some h
    known_current a h e = elim (Bool-cases (a == 1)) [
      | inl same ↦ ground arith
      | inr apart ↦ ground arith
    ]

abbrev members : List Membership
members =
    record (fresh_row 1 1) { member_pubkey = some 47 }
    ∷ record (fresh_row 2 3) { member_pubkey = some 60 }
    ∷ []

-- The first read of address 3 fills the cache.
read_through : (get_pubkey_for_address normal_form 3 table known).0.address 60 ≡ some 3
unfolding get_pubkey_for_address set_cache_entry resolved
read_through = refl

get_address_for_pubkey-IsAnswer_example :
    IsAnswer normal_form table
      (normal_form 140)
      (get_address_for_pubkey normal_form 140 table known).1
    × IsCoherent normal_form table (get_address_for_pubkey normal_form 140 table known).0
get_address_for_pubkey-IsAnswer_example =
    get_address_for_pubkey-IsAnswer normal_form normal_form_idem 140 table known table_unique
      known-IsCoherent

get_pubkeys_for_addresses-resolved_example :
    (lookup 3 (get_pubkeys_for_addresses normal_form (1 ∷ 2 ∷ 3 ∷ []) table known).1
      ≡ (if includes 3 (1 ∷ 2 ∷ 3 ∷ []) then some (resolved normal_form 3 table) else none))
    × IsCoherent normal_form table
        (get_pubkeys_for_addresses normal_form (1 ∷ 2 ∷ 3 ∷ []) table known).0
get_pubkeys_for_addresses-resolved_example =
    get_pubkeys_for_addresses-resolved normal_form normal_form_idem (1 ∷ 2 ∷ 3 ∷ []) table known 3
      table_unique known-IsCoherent

only_first_moves :
    (b : ℕ) → (1 == b) ≡ false → resolved normal_form b moved ≡ resolved normal_form b table
unfolding resolved
only_first_moves b apart = ground arith

abbrev two_members : World
two_members = record world { memberships = members }

members-IsMirrored : IsMirrored normal_form table members
unfolding resolved
members-IsMirrored = (refl, (refl, tt))

-- The link of address 1 is taken away: its row loses its pubkey, and the cache forgets it.
reresolve_address-IsCoherent_example :
    IsCoherent normal_form moved (reresolve_address normal_form true 1 moved (known, two_members)).0
    × IsMirrored normal_form moved
        (reresolve_address normal_form true 1 moved (known, two_members)).1.memberships
reresolve_address-IsCoherent_example =
    reresolve_address-IsCoherent normal_form normal_form_idem true 1 table moved known two_members
      known-IsCoherent members-IsMirrored only_first_moves
