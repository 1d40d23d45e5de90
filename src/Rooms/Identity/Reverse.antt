-- ===== src/Rooms/Identity/Reverse.antt =====
-- The reverse lookup: from a pubkey to an address.
use superhero_api.Base.{
  ℕ, Bool, false, Option, none, some, List, [], ◌∷◌, ◌≡◌, refl, sym, ap, ◌∙◌, subst, arith, ◌==◌,
  if◌then◌else◌, opt_eq_iff, find, Bool-cases, if-then, if-else, inl, inr, All, All-find, ◌≢◌,
  find_satisfies,
}
use superhero_api.Base.Pages.Order.{Distinct}
use superhero_api.Rooms.Identity.{
  Account, Cache, normal, link_of, resolved, cached_or, is_linked_to, remember_address,
  address_of_hex, get_address_for_pubkey,
}
use superhero_api.Rooms.Identity.Current.{IsCoherent, set_cache_entry-IsCoherent}

-- A row that a query finds is found by its own id.
find-id {ℓ} :
    {A : Type ℓ} (id : A → ℕ) (p : A → Bool) (xs : List A) (r : A)
    → Distinct id xs
    → find p xs ≡ some r
    → find (λ x. id x == id r) xs ≡ some r
find-id id p [] r d e = cc
find-id id p (x ∷ xs) r (apart, d) e = elim (Bool-cases (p x)) [
  | inl hit ↦
      let same : x ≡ r = cc (sym (if-then (some x) (find p xs) hit) ∙ e) in
      subst (λ z. (if id x == id z then some x else find (λ y. id y == id z) xs) ≡ some z) same
        (ground arith)
  | inr miss ↦
      let e' = sym (if-else (some x) (find p xs) miss) ∙ e in
      ground (arith, All-find (λ y. id y ≢ id x) p xs r apart e', find-id id p xs r d e')
]

find_miss {ℓ} :
    {A : Type ℓ} (p : A → Bool) (xs : List A) → find p xs ≡ none → All (λ x. p x ≡ false) xs
find_miss p [] e = tt
find_miss p (x ∷ xs) e = elim (Bool-cases (p x)) [
  | inl hit ↦ absurd (ground arith)
  | inr miss ↦ (miss, find_miss p xs (sym (if-else (some x) (find p xs) miss) ∙ e))
]

module _ (normalize : ℕ → Option ℕ) where
  -- No answer: the pubkey is malformed, or no account has it. An answer: the address has it.
  abbrev pub IsAnswer : List Account → Option ℕ → Option ℕ → Type 0
  IsAnswer accounts none o = o ≡ none
  IsAnswer accounts (some hex) none = All (λ a. is_linked_to normalize hex a ≡ false) accounts
  IsAnswer accounts (some hex) (some address) = resolved normalize address accounts ≡ some hex

  module _ (idem : (t h : ℕ) → normalize t ≡ some h → normalize h ≡ some h)
      (accounts : List Account) (unique : Distinct (λ (a : Account). a.address) accounts) where
    linked-resolved :
        (hex : ℕ) (a : Account)
        → find (is_linked_to normalize hex) accounts ≡ some a
        → resolved normalize a.address accounts ≡ some hex
    unfolding resolved
    linked-resolved hex a e =
        ap (λ o. normal normalize (link_of o))
          (find-id (λ (x : Account). x.address) (is_linked_to normalize hex) accounts a unique e)
        ∙ (opt_eq_iff (normal normalize a.link) (some hex)).0
            (find_satisfies (is_linked_to normalize hex) accounts a e)

    found_address :
        (hex : ℕ) (c : Cache) (cached : Option ℕ) (o : Option Account)
        → IsCoherent normalize accounts c
        → c.address hex ≡ cached
        → find (is_linked_to normalize hex) accounts ≡ o
        → IsAnswer accounts (some hex) (cached_or cached c (remember_address normalize hex o c)).1
          × IsCoherent normalize accounts
              (cached_or cached c (remember_address normalize hex o c)).0
    found_address hex c (some address) o h e f = (h.current address hex (h.back hex address e), h)
    found_address hex c none none h e f = (find_miss (is_linked_to normalize hex) accounts f, h)
    found_address hex c none (some a) h e f = (
      linked-resolved hex a f,
      set_cache_entry-IsCoherent normalize idem a.address hex accounts accounts c h
          (λ b apart. refl) (linked-resolved hex a f),
    )

    answered :
        (o : Option ℕ) (c : Cache)
        → IsCoherent normalize accounts c
        → IsAnswer accounts o (address_of_hex normalize o accounts c).1
          × IsCoherent normalize accounts (address_of_hex normalize o accounts c).0
    answered none c h = (refl, h)
    answered (some hex) c h =
        found_address hex c (c.address hex) (find (is_linked_to normalize hex) accounts) h refl refl

  -- With a coherent cache and one account per address, an answer is an address whose link has the
  -- pubkey's normal form; without one, the pubkey has no normal form or no account has it. The
  -- cache is coherent afterwards.
  pub get_address_for_pubkey-IsAnswer :
      (idem : (t h : ℕ) → normalize t ≡ some h → normalize h ≡ some h) (pubkey : ℕ)
      (accounts : List Account) (c : Cache)
      → Distinct (λ (a : Account). a.address) accounts
      → IsCoherent normalize accounts c
      → IsAnswer accounts (normalize pubkey) (get_address_for_pubkey normalize pubkey accounts c).1
        × IsCoherent normalize accounts (get_address_for_pubkey normalize pubkey accounts c).0
  unfolding get_address_for_pubkey
  get_address_for_pubkey-IsAnswer idem pubkey accounts c unique h =
      answered idem accounts unique (normalize pubkey) c h
