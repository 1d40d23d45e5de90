-- ===== src/Rooms/Identity/Current.antt =====
-- What the identity cache and the mirrored pubkeys say, against the table of accounts.
use superhero_api.Base.{
  ℕ, Bool, true, false, Option, none, some, List, [], ◌∷◌, ◌≡◌, refl, sym, ap, ◌∙◌, subst, arith,
  ◌==◌, ==_iff, if◌then◌else◌, find, update, Bool-cases, if-then, if-else, inl, inr, All,
}
use superhero_api.Rooms.Store.{Membership, World}
use superhero_api.Rooms.Identity.{
  Account, Cache, set_hex, clear_cache_entry, set_cache_entry, normal, link_of, resolved, remember,
  cached_or, get_pubkey_for_address, reset_entry, with_pubkey, reresolve_address,
}
use superhero_api.Rooms.Identity.Coherent.{PointsBack, set_hex-PointsBack, clear-PointsBack}

module _ (normalize : ℕ → Option ℕ) where
  -- Each reverse entry has its forward entry, which is the link of its address in the table.
  pub record IsCoherent (accounts : List Account) (c : Cache) : Type 0 where
    pub back : PointsBack c
    pub current : (a h : ℕ) → c.pubkey a ≡ some h → resolved normalize a accounts ≡ some h

  module _ (idem : (t h : ℕ) → normalize t ≡ some h → normalize h ≡ some h) where
    normal-normalize : (o : Option ℕ) (h : ℕ) → normal normalize o ≡ some h → normalize h ≡ some h
    normal-normalize none h e = cc
    normal-normalize (some t) h e = idem t h e

    resolved-normalize :
        (address hex : ℕ) (accounts : List Account)
        → resolved normalize address accounts ≡ some hex
        → normalize hex ≡ some hex
    unfolding resolved
    resolved-normalize address hex accounts e =
        normal-normalize (link_of (find (λ a. a.address == address) accounts)) hex e

    -- An entry is set to the link that the table now has; the others had it before.
    pub set_cache_entry-IsCoherent :
        (address hex : ℕ) (accounts accounts' : List Account) (c : Cache)
        → IsCoherent accounts c
        → ((b : ℕ)
            → (address == b) ≡ false
            → resolved normalize b accounts' ≡ resolved normalize b accounts)
        → resolved normalize address accounts' ≡ some hex
        → IsCoherent accounts' (set_cache_entry normalize address hex c)
    unfolding set_cache_entry
    set_cache_entry-IsCoherent address hex accounts accounts' c h others e = record {
      back = set_hex-PointsBack c h.back address (normalize hex);
      current = λ a k now. written a k (
          subst (λ o. (set_hex address o c).pubkey a ≡ some k)
            (resolved-normalize address hex accounts' e) now);
    }
      where
        written :
            (a k : ℕ)
            → (set_hex address (some hex) c).pubkey a ≡ some k
            → resolved normalize a accounts' ≡ some k
        written a k now = elim (Bool-cases (address == a)) [
          | inl same ↦
              let value : some hex ≡ some k = sym (if-then (some hex) (c.pubkey a) same) ∙ now in
              subst (λ b. resolved normalize b accounts' ≡ some k) ((==_iff address a).0 same)
                (e ∙ value)
          | inr apart ↦
              others a apart ∙ h.current a k (sym (if-else (some hex) (c.pubkey a) apart) ∙ now)
        ]

  -- The pubkeys of the memberships are the links of their members.
  abbrev pub IsMirrored : List Account → List Membership → Type 0
  IsMirrored accounts ms =
      All (λ (m : Membership). m.member_pubkey ≡ resolved normalize m.member_address accounts) ms

  clear_cache_entry-IsCoherent :
      (address : ℕ) (accounts accounts' : List Account) (c : Cache)
      → IsCoherent accounts c
      → ((b : ℕ)
          → (address == b) ≡ false
          → resolved normalize b accounts' ≡ resolved normalize b accounts)
      → IsCoherent accounts' (clear_cache_entry address c)
  unfolding clear_cache_entry
  clear_cache_entry-IsCoherent address accounts accounts' c h others = record {
    back = clear-PointsBack c h.back address;
    current = λ a k now. ground (arith, others a, h.current a k);
  }

  module _ (idem : (t h : ℕ) → normalize t ≡ some h → normalize h ≡ some h) where
    looked_up :
        (address : ℕ) (accounts : List Account) (c : Cache) (cached hex : Option ℕ)
        → IsCoherent accounts c
        → c.pubkey address ≡ cached
        → resolved normalize address accounts ≡ hex
        → ((cached_or cached c (remember normalize address hex c)).1 ≡ hex)
          × IsCoherent accounts (cached_or cached c (remember normalize address hex c)).0
    looked_up address accounts c (some cached) hex h e r = (sym (h.current address cached e) ∙ r, h)
    looked_up address accounts c none none h e r = (refl, h)
    looked_up address accounts c none (some hex) h e r = (
      refl,
      set_cache_entry-IsCoherent idem address hex accounts accounts c h (λ b apart. refl) r,
    )

    -- With a coherent cache, the answer is the link of the address in the table, and the cache is
    -- coherent afterwards.
    pub get_pubkey_for_address-IsCoherent :
        (address : ℕ) (accounts : List Account) (c : Cache)
        → IsCoherent accounts c
        → ((get_pubkey_for_address normalize address accounts c).1
            ≡ resolved normalize address accounts)
          × IsCoherent accounts (get_pubkey_for_address normalize address accounts c).0
    unfolding get_pubkey_for_address
    get_pubkey_for_address-IsCoherent address accounts c h =
        looked_up address accounts c (c.pubkey address) (resolved normalize address accounts) h refl
          refl

    with_pubkey-Mirrored :
        (address : ℕ) (accounts accounts' : List Account) (m : Membership)
        → ((b : ℕ)
            → (address == b) ≡ false
            → resolved normalize b accounts' ≡ resolved normalize b accounts)
        → m.member_pubkey ≡ resolved normalize m.member_address accounts
        → ((if m.member_address == address
              then with_pubkey (resolved normalize address accounts') m
              else m).member_pubkey
            ≡ resolved normalize
                (if m.member_address == address
                  then with_pubkey (resolved normalize address accounts') m
                  else m).member_address
                accounts')
    with_pubkey-Mirrored address accounts accounts' m others h =
        elim (Bool-cases (m.member_address == address)) [
          | inl same ↦ rw same (
              ap (λ b. resolved normalize b accounts')
                (sym ((==_iff m.member_address address).0 same)))
          | inr apart ↦ rw apart (h ∙ sym (others m.member_address (ground arith)))
        ]

    mirror-IsMirrored :
        (address : ℕ) (accounts accounts' : List Account)
        → ((b : ℕ)
            → (address == b) ≡ false
            → resolved normalize b accounts' ≡ resolved normalize b accounts)
        → (ms : List Membership) → IsMirrored accounts ms
        → IsMirrored accounts' (
            update
              (λ m. m.member_address == address)
              (with_pubkey (resolved normalize address accounts'))
              ms)
    mirror-IsMirrored address accounts accounts' others [] h = tt
    mirror-IsMirrored address accounts accounts' others (m ∷ ms) (h, hs) = (
      with_pubkey-Mirrored address accounts accounts' m others h,
      mirror-IsMirrored address accounts accounts' others ms hs,
    )

    reset_IsCoherent :
        (address : ℕ) (accounts accounts' : List Account) (c : Cache)
        → IsCoherent accounts c
        → ((b : ℕ)
            → (address == b) ≡ false
            → resolved normalize b accounts' ≡ resolved normalize b accounts)
        → (o : Option ℕ) → resolved normalize address accounts' ≡ o
        → IsCoherent accounts' (reset_entry normalize address o c)
    reset_IsCoherent address accounts accounts' c h others none e =
        clear_cache_entry-IsCoherent address accounts accounts' c h others
    reset_IsCoherent address accounts accounts' c h others (some hex) e =
        set_cache_entry-IsCoherent idem address hex accounts accounts' c h others e

    -- The link of one address has changed in the table: once the change has been handled, a coherent
    -- cache is coherent with the new table, and memberships that mirrored the old table mirror it.
    pub reresolve_address-IsCoherent :
        (tell : Bool) (address : ℕ) (accounts accounts' : List Account) (c : Cache) (w : World)
        → IsCoherent accounts c
        → IsMirrored accounts w.memberships
        → ((b : ℕ)
            → (address == b) ≡ false
            → resolved normalize b accounts' ≡ resolved normalize b accounts)
        → IsCoherent accounts' (reresolve_address normalize tell address accounts' (c, w)).0
          × IsMirrored accounts'
              (reresolve_address normalize tell address accounts' (c, w)).1.memberships
    unfolding reresolve_address
    reresolve_address-IsCoherent true address accounts accounts' c w h m others = (
      reset_IsCoherent address accounts accounts' c h others (resolved normalize address accounts')
          refl,
      mirror-IsMirrored address accounts accounts' others w.memberships m,
    )
    reresolve_address-IsCoherent false address accounts accounts' c w h m others = (
      reset_IsCoherent address accounts accounts' c h others (resolved normalize address accounts')
          refl,
      mirror-IsMirrored address accounts accounts' others w.memberships m,
    )
