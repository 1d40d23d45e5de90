-- ===== src/Rooms/Eligibility/Announced.antt =====
-- recomputeMember of eligibility.service.ts: what it reports and emits.
use superhero_api.Base.{
  ℕ, Bool, true, false, Option, none, some, ◌∷◌, ◌≡◌, ◌≢◌, ◌⊎◌, refl, arith, or_else,
}
use superhero_api.Rooms.Store.{Room, Membership, eligibility_changed, World, find_member}
use superhero_api.Rooms.Eligibility.{
  Desired, prev_eligible, wants, desired, is_publishable_add, upsert_membership, announce, settle,
  recompute_member,
}

upsert_emitted :
    (sale address : ℕ) (d : Desired) (current : Option Membership) (w : World)
    → (upsert_membership sale address d current w).emitted ≡ w.emitted
unfolding upsert_membership
upsert_emitted sale address d none w = refl
upsert_emitted sale address d (some row) w = refl

-- What the writing half emits: nothing, or the one event, which a flip or an add must justify.
abbrev pub Announces : ℕ → ℕ → Option Membership → Desired → World → World × Bool → Type 0
Announces sale address current d w (w', flipped) =
    ((flipped ≡ true)
      × (prev_eligible current ≢ d.eligible)
      × (w'.emitted ≡ eligibility_changed sale address d.eligible ∷ w.emitted))
    ⊎ ((flipped ≡ false)
        × (prev_eligible current ≡ d.eligible)
        × ((w'.emitted ≡ w.emitted)
            ⊎ ((is_publishable_add d ≡ true)
                × (w'.emitted ≡ eligibility_changed sale address d.eligible ∷ w.emitted))))

settle-Announces :
    (sale address : ℕ) (current : Option Membership) (d : Desired) (w : World)
    → Announces sale address current d w (settle sale address current d w)
unfolding settle announce
settle-Announces sale address none d w = ground (arith, upsert_emitted sale address d none w)
settle-Announces sale address (some row) d w =
    ground (arith, upsert_emitted sale address d (some row) w)

-- However its arguments are given, a recompute reports a flip exactly when the eligibility differs
-- from that of the row found, then emits the event; else it emits it only for an add to publish.
pub recompute_member-Announces :
    (room : Room) (address : ℕ) (existing : Option (Option Membership))
    (balance_raw pubkey : Option (Option ℕ)) (w : World)
    → let current = or_else existing (find_member room.sale_address address w) in
      Announces room.sale_address address current
        (desired room address current
          (wants room address balance_raw w)
          (or_else pubkey (w.pubkey_of address)))
        w
        (recompute_member room address existing balance_raw pubkey w)
unfolding recompute_member
recompute_member-Announces room address existing balance_raw pubkey w =
    settle-Announces room.sale_address address _ _ w
