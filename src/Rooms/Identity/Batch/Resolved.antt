-- ===== src/Rooms/Identity/Batch/Resolved.antt =====
-- The batch lookup agrees with the table, as the single one does.
use superhero_api.Base.{
  ℕ, Bool, true, not, Option, none, some, List, [], ◌∷◌, ◌≡◌, refl, sym, ap, ◌∙◌, subst, arith,
  ◌==◌, ==_iff, ◌&&◌, if◌then◌else◌, find, Bool-cases, if-then, if-else, Option-cases, inl,
  includes-select, inr, All, All-select, ◌≢◌, is_some, select, includes, lookup,
}
use superhero_api.Base.Pages.Order.{Distinct}
use superhero_api.Rooms.Identity.{Account, Cache, normal, link_of, resolved, remember}
use superhero_api.Rooms.Identity.Batch.{
  set_hit, hits, uncached, by_address, fill, read_uncached, get_pubkeys_for_addresses,
}
use superhero_api.Rooms.Identity.Current.{IsCoherent, set_cache_entry-IsCoherent}

lookup-set_hit :
    (a address : ℕ) (o : Option ℕ) (m : List (ℕ × Option ℕ))
    → lookup a (set_hit address o m) ≡ (if address == a && is_some o then some o else lookup a m)
lookup-set_hit a address none m = ground arith
lookup-set_hit a address (some h) m = ground arith

lookup-hits :
    (a : ℕ) (c : Cache) (rest : List ℕ) (m : List (ℕ × Option ℕ))
    → lookup a (hits c rest m)
      ≡ (if includes a rest && is_some (c.pubkey a) then some (c.pubkey a) else lookup a m)
lookup-hits a c [] m = refl
lookup-hits a c (b ∷ rest) m = elim (Bool-cases (b == a)) [
  | inl same ↦
      subst
        (λ z. lookup z (hits c (b ∷ rest) m) ≡ (
          if includes z (b ∷ rest) && is_some (c.pubkey z) then some (c.pubkey z) else lookup z m))
        ((==_iff b a).0 same)
        (ground (
          arith,
          lookup-hits b c rest (set_hit b (c.pubkey b) m),
          lookup-set_hit b b (c.pubkey b) m,
        ))
  | inr apart ↦
      ground
        (arith, lookup-hits a c rest (set_hit b (c.pubkey b) m), lookup-set_hit a b (c.pubkey b) m)
]

find-select :
    (p q : Account → Bool) (xs : List Account)
    → ((x : Account) → p x ≡ true → q x ≡ true)
    → find p (select q xs) ≡ find p xs
find-select p q [] h = refl
find-select p q (x ∷ xs) h = ground (arith, h x, find-select p q xs h)

lookup-by_address_miss :
    (a : ℕ) (xs : List Account) (m : List (ℕ × Account))
    → All (λ (x : Account). x.address ≢ a) xs
    → lookup a (by_address xs m) ≡ lookup a m
lookup-by_address_miss a [] m h = refl
lookup-by_address_miss a (x ∷ xs) m (h, hs) =
    lookup-by_address_miss a xs ((x.address, x) ∷ m) hs
    ∙ if-else (some x) (lookup a m) (ground arith)

lookup-by_address :
    (a : ℕ) (xs : List Account) (m : List (ℕ × Account))
    → Distinct (λ (x : Account). x.address) xs
    → lookup a m ≡ none
    → lookup a (by_address xs m) ≡ find (λ x. x.address == a) xs
lookup-by_address a [] m d e = e
lookup-by_address a (x ∷ xs) m (apart, d) e = elim (Bool-cases (x.address == a)) [
  | inl same ↦
      lookup-by_address_miss a xs ((x.address, x) ∷ m)
        (subst (λ z. All (λ (y : Account). y.address ≢ z) xs) ((==_iff x.address a).0 same) apart)
      ∙ if-then (some x) (lookup a m) same
      ∙ sym (if-then (some x) (find (λ y. y.address == a) xs) same)
  | inr other ↦
      lookup-by_address a xs ((x.address, x) ∷ m) d (if-else (some x) (lookup a m) other ∙ e)
      ∙ sym (if-else (some x) (find (λ y. y.address == a) xs) other)
]

Distinct-select :
    (q : Account → Bool) (xs : List Account)
    → Distinct (λ (x : Account). x.address) xs
    → Distinct (λ (x : Account). x.address) (select q xs)
Distinct-select q [] d = tt
Distinct-select q (x ∷ xs) (h, d) = elim (Bool-cases (q x)) [
  | inl hit ↦
      rw hit (All-select (λ (y : Account). y.address ≢ x.address) q xs h, Distinct-select q xs d)
  | inr miss ↦ rw miss (Distinct-select q xs d)
]

module _ (normalize : ℕ → Option ℕ) where
  -- What the second loop writes for an address.
  abbrev of_row : List (ℕ × Account) → ℕ → Option ℕ
  of_row rows a = normal normalize (link_of (lookup a rows))

  remember-answer : (a : ℕ) (o : Option ℕ) (c : Cache) → (remember normalize a o c).1 ≡ o
  remember-answer a none c = refl
  remember-answer a (some h) c = refl

  lookup-fill :
      (a : ℕ) (rows : List (ℕ × Account)) (rest : List ℕ) (c : Cache) (m : List (ℕ × Option ℕ))
      → lookup a (fill normalize rows rest (c, m)).1
        ≡ (if includes a rest then some (of_row rows a) else lookup a m)
  lookup-fill a rows [] c m = refl
  lookup-fill a rows (b ∷ rest) c m =
      let c' = (remember normalize b (of_row rows b) c).0 in
      let m' = (b, (remember normalize b (of_row rows b) c).1) ∷ m in
      elim (Bool-cases (b == a)) [
        | inl same ↦
            subst
              (λ z.
                lookup z (fill normalize rows (b ∷ rest) (c, m)).1
                ≡ (if includes z (b ∷ rest) then some (of_row rows z) else lookup z m))
              ((==_iff b a).0 same)
              (ground (arith, lookup-fill b rows rest c' m', remember-answer b (of_row rows b) c))
        | inr apart ↦ ground (arith, lookup-fill a rows rest c' m')
      ]

  module _ (idem : (t h : ℕ) → normalize t ≡ some h → normalize h ≡ some h)
      (accounts : List Account) where
    remember-IsCoherent :
        (a : ℕ) (o : Option ℕ) (c : Cache)
        → IsCoherent normalize accounts c
        → o ≡ resolved normalize a accounts
        → IsCoherent normalize accounts (remember normalize a o c).0
    remember-IsCoherent a none c h e = h
    remember-IsCoherent a (some hex) c h e =
        set_cache_entry-IsCoherent normalize idem a hex accounts accounts c h (λ b apart. refl)
          (sym e)

    fill-IsCoherent :
        (rows : List (ℕ × Account)) (rest : List ℕ) (c : Cache) (m : List (ℕ × Option ℕ))
        → IsCoherent normalize accounts c
        → ((a : ℕ) → includes a rest ≡ true → of_row rows a ≡ resolved normalize a accounts)
        → IsCoherent normalize accounts (fill normalize rows rest (c, m)).0
    fill-IsCoherent rows [] c m h e = h
    fill-IsCoherent rows (a ∷ rest) c m h e =
        fill-IsCoherent rows rest (remember normalize a (of_row rows a) c).0
          ((a, (remember normalize a (of_row rows a) c).1) ∷ m)
          (remember-IsCoherent a (of_row rows a) c h (e a (ground arith)))
          (λ b i. e b (ground arith))

    module _ (unique : Distinct (λ (a : Account). a.address) accounts) where
      of_row-resolved :
          (rest : List ℕ) (a : ℕ)
          → includes a rest ≡ true
          → of_row (by_address (select (λ x. includes x.address rest) accounts) []) a
            ≡ resolved normalize a accounts
      unfolding resolved
      of_row-resolved rest a i =
          ap (λ o. normal normalize (link_of o))
            (lookup-by_address a (select (λ x. includes x.address rest) accounts) []
                (Distinct-select (λ x. includes x.address rest) accounts unique) refl
              ∙ find-select (λ x. x.address == a) (λ x. includes x.address rest) accounts
                  (λ x same.
                    subst (λ z. includes z rest ≡ true) (sym ((==_iff x.address a).0 same)) i))

      read_uncached-lookup :
          (a : ℕ) (rest : List ℕ) (c : Cache) (m : List (ℕ × Option ℕ))
          → lookup a (read_uncached normalize rest accounts (c, m)).1
            ≡ (if includes a rest then some (resolved normalize a accounts) else lookup a m)
      read_uncached-lookup a [] c m = refl
      read_uncached-lookup a (b ∷ rest) c m = ground (
        arith,
        lookup-fill a (by_address (select (λ x. includes x.address (b ∷ rest)) accounts) [])
            (b ∷ rest) c m,
        of_row-resolved (b ∷ rest) a,
      )

      read_uncached-IsCoherent :
          (rest : List ℕ) (c : Cache) (m : List (ℕ × Option ℕ))
          → IsCoherent normalize accounts c
          → IsCoherent normalize accounts (read_uncached normalize rest accounts (c, m)).0
      read_uncached-IsCoherent [] c m h = h
      read_uncached-IsCoherent (b ∷ rest) c m h =
          fill-IsCoherent (by_address (select (λ x. includes x.address (b ∷ rest)) accounts) [])
            (b ∷ rest) c m h (of_row-resolved (b ∷ rest))

      cached_entry :
          (a : ℕ) (c : Cache)
          → IsCoherent normalize accounts c
          → is_some (c.pubkey a) ≡ true
          → c.pubkey a ≡ resolved normalize a accounts
      cached_entry a c h e = elim (Option-cases (c.pubkey a)) [
        | inl none_there ↦ absurd (ground arith)
        | inr (hex, there) ↦ there ∙ sym (h.current a hex there)
      ]

  -- With a coherent cache and one account per address, the result has, for each address that was
  -- asked for, its link in the table, and nothing for any other; the cache is coherent afterwards.
  pub get_pubkeys_for_addresses-resolved :
      (idem : (t h : ℕ) → normalize t ≡ some h → normalize h ≡ some h) (addresses : List ℕ)
      (accounts : List Account) (c : Cache) (a : ℕ)
      → Distinct (λ (x : Account). x.address) accounts
      → IsCoherent normalize accounts c
      → (lookup a (get_pubkeys_for_addresses normalize addresses accounts c).1
          ≡ (if includes a addresses then some (resolved normalize a accounts) else none))
        × IsCoherent normalize accounts (get_pubkeys_for_addresses normalize addresses accounts c).0
  unfolding get_pubkeys_for_addresses
  get_pubkeys_for_addresses-resolved idem addresses accounts c a unique h = (
    ground (
      arith,
      read_uncached-lookup idem accounts unique a (uncached c addresses) c (hits c addresses []),
      includes-select a (λ b. not (is_some (c.pubkey b))) addresses,
      lookup-hits a c addresses [],
      cached_entry idem accounts unique a c h,
    ),
    read_uncached-IsCoherent idem accounts unique (uncached c addresses) c (hits c addresses []) h,
  )
