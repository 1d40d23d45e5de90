-- ===== src/Rooms/Identity/Batch.antt =====
-- src/token-gated-rooms/services/identity.service.ts: the pubkeys of many addresses, by one read.
pub mod Resolved
use superhero_api.Base.{
  ℕ, Bool, not, Option, none, some, List, [], ◌∷◌, is_some, select, includes, lookup,
}
use superhero_api.Rooms.Identity.{Account, Cache, set_cache_entry, normal, link_of, remember}

abbrev pub set_hit : ℕ → Option ℕ → List (ℕ × Option ℕ) → List (ℕ × Option ℕ)
set_hit address none result = result
set_hit address (some hex) result = (address, some hex) ∷ result

-- The first loop: what the cache has goes into the result.
abbrev pub hits : Cache → List ℕ → List (ℕ × Option ℕ) → List (ℕ × Option ℕ)
hits c [] result = result
hits c (address ∷ addresses) result = hits c addresses (set_hit address (c.pubkey address) result)

abbrev pub uncached : Cache → List ℕ → List ℕ
uncached c addresses = select (λ a. not (is_some (c.pubkey a))) addresses

-- `new Map(accounts.map(...))`
abbrev pub by_address : List Account → List (ℕ × Account) → List (ℕ × Account)
by_address [] rows = rows
by_address (a ∷ accounts) rows = by_address accounts ((a.address, a) ∷ rows)

module _ (normalize : ℕ → Option ℕ) where
  -- The second loop: what the table has goes into the cache and the result.
  abbrev pub fill :
      List (ℕ × Account) → List ℕ → Cache × List (ℕ × Option ℕ) → Cache × List (ℕ × Option ℕ)
  fill rows [] s = s
  fill rows (address ∷ addresses) (c, result) =
      let (c', hex) =
        remember normalize address (normal normalize (link_of (lookup address rows))) c in
      fill rows addresses (c', (address, hex) ∷ result)

  abbrev pub read_uncached :
      List ℕ → List Account → Cache × List (ℕ × Option ℕ) → Cache × List (ℕ × Option ℕ)
  read_uncached [] accounts s = s
  read_uncached (a ∷ rest) accounts s =
      fill (by_address (select (λ x. includes x.address (a ∷ rest)) accounts) []) (a ∷ rest) s

  -- getPubkeysForAddresses: the cache and the entries of the result, the newest first.
  unfoldable pub get_pubkeys_for_addresses :
      List ℕ → List Account → Cache → Cache × List (ℕ × Option ℕ)
  unfolding set_cache_entry
  get_pubkeys_for_addresses addresses accounts c =
      read_uncached (uncached c addresses) accounts (c, hits c addresses [])
