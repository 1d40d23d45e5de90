-- ===== src/Rooms/Identity/Coherent.antt =====
-- The two directions of the identity cache, and what the cache says against the table of accounts.
use superhero_api.Base.{
  ℕ, false, Option, none, some, ◌≡◌, ap, ◌∙◌, subst, arith, ◌==◌, ==_iff, opt_eq, opt_eq_iff,
  Bool-cases, inl, inr,
}
use superhero_api.Rooms.Identity.{
  Cache, drop_reverse, drop_previous, set_hex, drop_cached, clear_cache_entry,
}

-- Every reverse entry has its forward entry.
abbrev pub PointsBack : Cache → Type 0
PointsBack c = (h a : ℕ) → c.address h ≡ some a → c.pubkey a ≡ some h

drop_reverse_keeps :
    (address previous h a : ℕ) (m : ℕ → Option ℕ)
    → drop_reverse address previous m h ≡ some a
    → m h ≡ some a
drop_reverse_keeps address previous h a m e =
    elim (Bool-cases (opt_eq (m previous) (some address))) [
      | inl hit ↦ ground arith
      | inr miss ↦ ground arith
    ]

drop_reverse_gone :
    (address h a : ℕ) (m : ℕ → Option ℕ)
    → drop_reverse address h m h ≡ some a
    → (address == a) ≡ false
drop_reverse_gone address h a m e = ground (arith, opt_eq_iff (m h) (some address))

drop_previous_keeps :
    (address hex : ℕ) (o : Option ℕ) (m : ℕ → Option ℕ) (h a : ℕ)
    → drop_previous address hex o m h ≡ some a
    → m h ≡ some a
drop_previous_keeps address hex none m h a e = e
drop_previous_keeps address hex (some previous) m h a e =
    ground (arith, drop_reverse_keeps address previous h a m)

drop_previous_gone :
    (address hex h a : ℕ) (m : ℕ → Option ℕ)
    → (hex == h) ≡ false
    → drop_previous address hex (some h) m h ≡ some a
    → (address == a) ≡ false
drop_previous_gone address hex h a m ne e = ground (arith, drop_reverse_gone address h a m)

module _ (c : Cache) (back : PointsBack c) where
  drop_previous_apart :
      (address hex h a : ℕ)
      → (hex == h) ≡ false
      → drop_previous address hex (c.pubkey address) c.address h ≡ some a
      → (address == a) ≡ false
  drop_previous_apart address hex h a ne e = elim (Bool-cases (address == a)) [
    | inl same ↦
        let points : c.pubkey a ≡ some h =
          back h a (drop_previous_keeps address hex (c.pubkey address) c.address h a e) in
        let previous = ap c.pubkey ((==_iff address a).0 same) ∙ points in
        drop_previous_gone address hex h a c.address ne
          (subst (λ o. drop_previous address hex o c.address h ≡ some a) previous e)
    | inr apart ↦ apart
  ]

  pub set_hex-PointsBack : (address : ℕ) (o : Option ℕ) → PointsBack (set_hex address o c)
  set_hex-PointsBack address none = back
  set_hex-PointsBack address (some hex) = λ h a e. ground (
    arith,
    drop_previous_apart address hex h a,
    back h a,
    drop_previous_keeps address hex (c.pubkey address) c.address h a,
  )

  drop_cached_keeps :
      (address : ℕ) (o : Option ℕ) (h a : ℕ)
      → drop_cached address o c.address h ≡ some a
      → c.address h ≡ some a
  drop_cached_keeps address none h a e = e
  drop_cached_keeps address (some previous) h a e =
      drop_reverse_keeps address previous h a c.address e

  drop_cached_apart :
      (address h a : ℕ)
      → drop_cached address (c.pubkey address) c.address h ≡ some a
      → (address == a) ≡ false
  drop_cached_apart address h a e = elim (Bool-cases (address == a)) [
    | inl same ↦
        let points : c.pubkey a ≡ some h =
          back h a (drop_cached_keeps address (c.pubkey address) h a e) in
        let previous = ap c.pubkey ((==_iff address a).0 same) ∙ points in
        drop_reverse_gone address h a c.address
          (subst (λ o. drop_cached address o c.address h ≡ some a) previous e)
    | inr apart ↦ apart
  ]

  pub clear-PointsBack : (address : ℕ) → PointsBack (clear_cache_entry address c)
  unfolding clear_cache_entry
  clear-PointsBack address = λ h a e. ground (
    arith,
    drop_cached_apart address h a,
    back h a,
    drop_cached_keeps address (c.pubkey address) h a,
  )
