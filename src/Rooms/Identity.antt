-- ===== src/Rooms/Identity.antt =====
-- src/token-gated-rooms/services/identity.service.ts: which pubkey an address is linked to, behind a
-- cache of both directions. A link is a text, a number here; normalizePubkey, which decodes bech32 by
-- a library, is a setting. An account without the provider's link has `none`.
pub mod Batch
pub mod Coherent
pub mod Current
pub mod Reverse
use superhero_api.Base.{
  ℕ, Bool, true, false, not, ◌&&◌, Option, none, some, List, [], ◌∷◌, ◌++◌, ◌==◌, if◌then◌else◌,
  opt_eq, is_some, find, update,
}
use superhero_api.Rooms.Store.{Membership, World, link_changed, emit}

pub record Account : Type 0 where
  pub address : ℕ
  pub link : Option ℕ

-- addressToPubkey and pubkeyToAddress.
pub record Cache : Type 0 where
  pub pubkey : ℕ → Option ℕ
  pub address : ℕ → Option ℕ

-- `Map.set` and `Map.delete`
abbrev pub put : ℕ → ℕ → (ℕ → Option ℕ) → ℕ → Option ℕ
put k v m j = if k == j then some v else m j

abbrev pub delete : ℕ → (ℕ → Option ℕ) → ℕ → Option ℕ
delete k m j = if k == j then none else m j

-- The reverse entry of a pubkey goes if it still points back at the address.
abbrev pub drop_reverse : ℕ → ℕ → (ℕ → Option ℕ) → ℕ → Option ℕ
drop_reverse address previous m =
    if opt_eq (m previous) (some address) then delete previous m else m

abbrev pub drop_previous : ℕ → ℕ → Option ℕ → (ℕ → Option ℕ) → ℕ → Option ℕ
drop_previous address hex none m = m
drop_previous address hex (some previous) m =
    if previous == hex then m else drop_reverse address previous m

abbrev pub set_hex : ℕ → Option ℕ → Cache → Cache
set_hex address none c = c
set_hex address (some hex) c = record {
  pubkey = put address hex c.pubkey;
  address = put hex address (drop_previous address hex (c.pubkey address) c.address);
}

abbrev pub drop_cached : ℕ → Option ℕ → (ℕ → Option ℕ) → ℕ → Option ℕ
drop_cached address none m = m
drop_cached address (some previous) m = drop_reverse address previous m

unfoldable pub clear_cache_entry : ℕ → Cache → Cache
clear_cache_entry address c = record {
  pubkey = delete address c.pubkey;
  address = drop_cached address (c.pubkey address) c.address;
}

abbrev pub link_of : Option Account → Option ℕ
link_of none = none
link_of (some a) = a.link

abbrev pub cached_or : Option ℕ → Cache → Cache × Option ℕ → Cache × Option ℕ
cached_or none c missed = missed
cached_or (some hex) c missed = (c, some hex)

abbrev pub with_pubkey : Option ℕ → Membership → Membership
with_pubkey hex m = record m { member_pubkey = hex }

abbrev pub mirror : ℕ → Option ℕ → World → World
mirror address hex w = record w {
  memberships = update (λ m. m.member_address == address) (with_pubkey hex) w.memberships;
}

module _ (normalize : ℕ → Option ℕ) where
  unfoldable pub set_cache_entry : ℕ → ℕ → Cache → Cache
  set_cache_entry address pubkey c = set_hex address (normalize pubkey) c

  abbrev pub normal : Option ℕ → Option ℕ
  normal none = none
  normal (some link) = normalize link

  -- The normal form of the link of an address, by the table of accounts.
  unfoldable pub resolved : ℕ → List Account → Option ℕ
  resolved address accounts = normal (link_of (find (λ a. a.address == address) accounts))

  abbrev pub remember : ℕ → Option ℕ → Cache → Cache × Option ℕ
  remember address none c = (c, none)
  remember address (some hex) c = (set_cache_entry address hex c, some hex)

  -- getPubkeyForAddress
  unfoldable pub get_pubkey_for_address : ℕ → List Account → Cache → Cache × Option ℕ
  unfolding set_cache_entry resolved
  get_pubkey_for_address address accounts c =
      cached_or (c.pubkey address) c (remember address (resolved address accounts) c)

  abbrev pub is_linked_to : ℕ → Account → Bool
  is_linked_to hex a = opt_eq (normal a.link) (some hex)

  abbrev pub remember_address : ℕ → Option Account → Cache → Cache × Option ℕ
  remember_address hex none c = (c, none)
  remember_address hex (some a) c = (set_cache_entry a.address hex c, some a.address)

  abbrev pub address_of_hex : Option ℕ → List Account → Cache → Cache × Option ℕ
  address_of_hex none accounts c = (c, none)
  address_of_hex (some hex) accounts c =
      cached_or (c.address hex) c (remember_address hex (find (is_linked_to hex) accounts) c)

  -- getAddressForPubkey: the first account, of those with a link, whose link has that normal form.
  unfoldable pub get_address_for_pubkey : ℕ → List Account → Cache → Cache × Option ℕ
  unfolding set_cache_entry
  get_address_for_pubkey pubkey accounts c = address_of_hex (normalize pubkey) accounts c

  abbrev pub reset_entry : ℕ → Option ℕ → Cache → Cache
  reset_entry address none c = clear_cache_entry address c
  reset_entry address (some hex) c = set_cache_entry address hex c

  -- reresolveAddress; `tell` is its option `emit`.
  unfoldable pub reresolve_address : Bool → ℕ → List Account → Cache × World → Cache × World
  unfolding set_cache_entry clear_cache_entry resolved
  reresolve_address tell address accounts (c, w) =
      let hex = resolved address accounts in
      (
        reset_entry address hex c,
        if tell then emit (link_changed address) (mirror address hex w) else mirror address hex w,
      )

  -- onLinkChanged
  unfoldable pub on_link_changed : ℕ → List Account → Cache × World → Cache × World
  unfolding reresolve_address
  on_link_changed address accounts s =
      if address == 0 then s else reresolve_address false address accounts s
