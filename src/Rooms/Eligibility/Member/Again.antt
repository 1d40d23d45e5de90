-- ===== src/Rooms/Eligibility/Member/Again.antt =====
-- recomputeMember of eligibility.service.ts, run twice.
use superhero_api.Base.{ℕ, Bool, false, Option, none, some, ◌≡◌, refl, sym, ap, subst, ◌∙◌, arith}
use superhero_api.Rooms.Store.{Room, Membership, World, find_member}
use superhero_api.Rooms.Eligibility.{
  is_set, Desired, prev_state, role_of, next_relay_state, wants, desired, upsert_membership,
  announce, settle, recompute_member,
}
use superhero_api.Rooms.Eligibility.Transition.{next_relay_state_idempotent}
use superhero_api.Rooms.Eligibility.Member.{
  Matches, Outcome, tracked, untracked, Matches-unchanged, recompute_member-Outcome,
}

settle_balances :
    (sale address : ℕ) (current : Option Membership) (d : Desired) (w : World)
    → ((settle sale address current d w).0.balances ≡ w.balances)
      × ((settle sale address current d w).0.pubkey_of ≡ w.pubkey_of)
unfolding settle announce upsert_membership
settle_balances sale address none d w = ground arith
settle_balances sale address (some row) d w = ground arith

recompute_balances :
    (room : Room) (address : ℕ) (w : World)
    → ((recompute_member room address none none none w).0.balances ≡ w.balances)
      × ((recompute_member room address none none none w).0.pubkey_of ≡ w.pubkey_of)
unfolding recompute_member
recompute_balances room address w = settle_balances room.sale_address address _ _ w

-- Nothing is written, and the result is false, where the row holds what is wanted.
settle_again :
    (sale address : ℕ) (row : Membership) (d : Desired) (w : World)
    → Matches d row
    → settle sale address (some row) d w ≡ (w, false)
unfolding settle
settle_again sale address row d w m = rw (Matches-unchanged row d m)

settle_out :
    (sale address : ℕ) (d : Desired) (w : World)
    → d.eligible ≡ false
    → settle sale address none d w ≡ (w, false)
unfolding settle
settle_out sale address d w e = simp e

-- A recompute wants the same of a row that matches.
desired_again :
    (room : Room) (address : ℕ) (current : Option Membership) (b : Bool) (pubkey : Option ℕ)
    (row : Membership)
    → Matches (desired room address current b pubkey) row
    → Matches (desired room address (some row) b pubkey) row
unfolding desired
desired_again room address current b pubkey row m = record {
  eligible = m.eligible;
  role = m.role;
  member_pubkey = m.member_pubkey;
  relay_state =
      m.relay_state
      ∙ sym (
          ap (λ s. next_relay_state b (is_set pubkey) (role_of room address) (some s)) m.relay_state
          ∙ next_relay_state_idempotent b (is_set pubkey) (role_of room address)
              (prev_state current));
}

pub wants-eq :
    (room : Room) (address : ℕ) (w w' : World)
    → w'.balances ≡ w.balances
    → wants room address none w' ≡ wants room address none w
unfolding wants
wants-eq room address w w' e = rw e

desired-eq :
    (room : Room) (address : ℕ) (current : Option Membership) (w w' : World)
    → w'.balances ≡ w.balances
    → w'.pubkey_of ≡ w.pubkey_of
    → desired room address current (wants room address none w) (w.pubkey_of address)
      ≡ desired room address current (wants room address none w') (w'.pubkey_of address)
desired-eq room address current w w' b k = rw (wants-eq room address w w' b, k)

desired-eligible :
    (room : Room) (address : ℕ) (current : Option Membership) (b : Bool) (pubkey : Option ℕ)
    → (desired room address current b pubkey).eligible ≡ b
unfolding desired
desired-eligible room address current b pubkey = refl

recompute_again :
    (room : Room) (address : ℕ) (current : Option Membership) (w' : World)
    → Outcome
        (desired room address current (wants room address none w') (w'.pubkey_of address))
        current
        (find_member room.sale_address address w')
    → recompute_member room address none none none w' ≡ (w', false)
unfolding recompute_member
recompute_again room address current w' (tracked row e m) =
    rw e (
      settle_again room.sale_address address row _ w'
        (desired_again room address current _ _ row m))
recompute_again room address current w' (untracked _ e out) = rw e (
    settle_out room.sale_address address _ w' (
      desired-eligible room address none _ _
      ∙ sym (desired-eligible room address current _ _)
      ∙ out))

-- The same recompute, run a second time, writes nothing, emits nothing and reports no flip.
recompute_member_idempotent :
    (room : Room) (address : ℕ) (w : World)
    → let w' = (recompute_member room address none none none w).0 in
      recompute_member room address none none none w' ≡ (w', false)
recompute_member_idempotent room address w =
    let current = find_member room.sale_address address w in
    let w' = (recompute_member room address none none none w).0 in
    let (b, k) = recompute_balances room address w in
    recompute_again room address current w' (
      subst (λ d. Outcome d current (find_member room.sale_address address w'))
        (desired-eq room address current w w' b k) (recompute_member-Outcome room address w))
