-- ===== src/Rooms/Drift/Corrected.antt =====
-- reconcileRoom of reconciliation.service.ts: which rows it corrects.
use superhero_api.Base.{
  ℕ, ◌≤◌, true, false, ◌||◌, Option, none, some, List, [], ◌∷◌, ◌≡◌, refl, sym, ap, ◌∙◌, subst, inl,
  inr, arith, ◌==◌, ==_iff, if-then, if-else, Bool-cases, includes, lookup, All,
}
use superhero_api.Base.Pages.{each}
use superhero_api.Rooms.Store.{is_admin, Membership}
use superhero_api.Rooms.Config.{Config, is_configured_admin}
use superhero_api.Rooms.Eligibility.{is_set}
use superhero_api.Rooms.Sync.{text_of}
use superhero_api.Rooms.Drift.{
  is_within_reorg_hold, is_missing_member, to_add, index_row, by_pubkey, is_removable, add_removal,
  removals, to_remove,
}

-- A row that is added back, and one that is removed.
pub record IsLacking (relay : List ℕ) (row : Membership) : Type 0 where
  pub eligible : row.eligible ≡ true
  pub linked : is_set row.member_pubkey ≡ true
  pub absent : includes (text_of row.member_pubkey) relay ≡ false

-- No hold, or one that ends at the known height or below it.
pub data IsReleased (current : Option ℕ) : Option ℕ → Type 0 where
  unheld : IsReleased current none
  passed : (height tip : ℕ) → current ≡ some tip → height ≤ tip → IsReleased current (some height)

pub record IsLeftover (c : Config) (current : Option ℕ) (relay : List ℕ) (row : Membership)
    : Type 0 where
  pub ineligible : row.eligible ≡ false
  pub no_admin : is_admin row.role ≡ false
  pub not_configured : is_configured_admin c row.member_pubkey ≡ false
  pub present : includes (text_of row.member_pubkey) relay ≡ true
  pub not_held : IsReleased current row.held_until_height

to_add-All : (relay : List ℕ) (rows : List Membership) → All (IsLacking relay) (to_add relay rows)
unfolding to_add
to_add-All relay [] = tt
to_add-All relay (row ∷ rows) =
    let rest = to_add-All relay rows in
    elim (Bool-cases (is_missing_member relay row)) [
      | inl lacks ↦ subst (All (IsLacking relay)) (sym (if-then _ _ lacks)) (
        record {
          eligible = ground (arith, lacks);
          linked = ground (arith, lacks);
          absent = ground (arith, lacks);
        },
        rest,
      )
      | inr there ↦ subst (All (IsLacking relay)) (sym (if-else _ _ there)) rest
    ]

-- The index leads from a pubkey to a row that has it.
abbrev IsIndex : List (ℕ × Membership) → Type 0
IsIndex = All (λ e. e.1.member_pubkey ≡ some e.0)

set_some : (o : Option ℕ) → is_set o ≡ true → o ≡ some (text_of o)
set_some none h = cc
set_some (some a) h = refl

each-index_row :
    (rows : List Membership) (m : List (ℕ × Membership))
    → IsIndex m
    → IsIndex (each index_row m rows)
each-index_row [] m h = h
each-index_row (row ∷ rows) m h =
    each-index_row rows (index_row m row) (elim (Bool-cases (is_set row.member_pubkey)) [
      | inl linked ↦
          subst IsIndex (sym (if-then ((text_of row.member_pubkey, row) ∷ m) m linked))
            (set_some row.member_pubkey linked, h)
      | inr free ↦ subst IsIndex (sym (if-else _ m free)) h
    ])

lookup-pubkey :
    (pubkey : ℕ) (m : List (ℕ × Membership)) (row : Membership)
    → IsIndex m
    → lookup pubkey m ≡ some row
    → row.member_pubkey ≡ some pubkey
lookup-pubkey pubkey [] row h e = cc
lookup-pubkey pubkey ((k, r) ∷ m) row (h, hs) e = elim (Bool-cases (k == pubkey)) [
  | inl hit ↦
      let same : r ≡ row = cc (sym (if-then (some r) _ hit) ∙ e) in
      subst (λ z. z.member_pubkey ≡ some pubkey) same (h ∙ ap some ((==_iff k pubkey).0 hit))
  | inr miss ↦ lookup-pubkey pubkey m row hs (sym (if-else _ _ miss) ∙ e)
]

IsLeftover-wider :
    (c : Config) (current : Option ℕ) (pubkey : ℕ) (relay : List ℕ) (rows : List Membership)
    → All (IsLeftover c current relay) rows
    → All (IsLeftover c current (pubkey ∷ relay)) rows
IsLeftover-wider c current pubkey relay [] h = tt
IsLeftover-wider c current pubkey relay (row ∷ rows) (h, hs) = (
  record {
    ineligible = h.ineligible;
    no_admin = h.no_admin;
    not_configured = h.not_configured;
    present = ground (arith, h.present);
    not_held = h.not_held;
  },
  IsLeftover-wider c current pubkey relay rows hs,
)

released :
    (current held : Option ℕ) → is_within_reorg_hold held current ≡ false → IsReleased current held
unfolding is_within_reorg_hold
released current none h = unheld
released none (some height) h = absurd (ground arith)
released (some tip) (some height) h = passed height tip refl (ground arith)

add_removal-All :
    (c : Config) (current : Option ℕ) (pubkey : ℕ) (relay : List ℕ) (o : Option Membership)
    (rest : List Membership)
    → is_configured_admin c (some pubkey) ≡ false
    → ((row : Membership) → o ≡ some row → row.member_pubkey ≡ some pubkey)
    → All (IsLeftover c current (pubkey ∷ relay)) rest
    → All (IsLeftover c current (pubkey ∷ relay)) (add_removal current o rest)
add_removal-All c current pubkey relay none rest free has h = h
add_removal-All c current pubkey relay (some row) rest free has h =
    let linked = has row refl in
    elim (Bool-cases (is_removable current row)) [
      | inl out ↦ subst (All (IsLeftover c current (pubkey ∷ relay))) (sym (if-then _ rest out)) (
        record {
          ineligible = ground (arith, out);
          no_admin = ground (arith, out);
          not_configured = ap (is_configured_admin c) linked ∙ free;
          present =
              ap (λ o. includes (text_of o) (pubkey ∷ relay)) linked
              ∙ ap (λ b. b || includes pubkey relay) ((==_iff pubkey pubkey).1 refl);
          not_held = released current row.held_until_height (ground (arith, out));
        },
        h,
      )
      | inr kept ↦ subst (All (IsLeftover c current (pubkey ∷ relay))) (sym (if-else _ rest kept)) h
    ]

removals-All :
    (c : Config) (current : Option ℕ) (index : List (ℕ × Membership)) (relay : List ℕ)
    → IsIndex index
    → All (IsLeftover c current relay) (removals c current index relay)
removals-All c current index [] h = tt
removals-All c current index (pubkey ∷ relay) h =
    let rest =
      IsLeftover-wider c current pubkey relay (removals c current index relay)
        (removals-All c current index relay h) in
    elim (Bool-cases (is_configured_admin c (some pubkey))) [
      | inl configured ↦
          subst (All (IsLeftover c current (pubkey ∷ relay))) (sym (if-then _ _ configured)) rest
      | inr free ↦ subst (All (IsLeftover c current (pubkey ∷ relay))) (sym (if-else _ _ free)) (
          add_removal-All c current pubkey relay (lookup pubkey index)
            (removals c current index relay) free (λ row e. lookup-pubkey pubkey index row h e)
            rest)
    ]

-- Reconciliation adds back only rows that are eligible and linked and whose pubkey the relay lacks.
-- It removes only rows whose pubkey the relay has, that are themselves neither eligible nor admin, by
-- role or by configuration, and that have no hold, or one that has passed at a known height. Another
-- row with the same pubkey may be eligible.
pub to_add-to_remove :
    (c : Config) (current : Option ℕ) (relay : List ℕ) (rows : List Membership)
    → All (IsLacking relay) (to_add relay rows)
      × All (IsLeftover c current relay) (to_remove c current relay rows)
unfolding to_remove
to_add-to_remove c current relay rows = (
  to_add-All relay rows,
  removals-All c current (by_pubkey rows) relay (each-index_row rows [] tt),
)
