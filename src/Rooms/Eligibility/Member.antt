-- ===== src/Rooms/Eligibility/Member.antt =====
-- recomputeMember of eligibility.service.ts: the member's row afterwards.
pub mod Again
use superhero_api.Base.{
  ℕ, Bool, true, false, not, ◌&&◌, ◌||◌, Option, none, some, sym, subst, leb, includes, ◌≡◌, refl,
  ap, ◌∙◌, inl, inr, arith, ◌==◌, if◌then◌else◌, if-else, is_some, opt_eq_iff, Bool-cases, find,
  find-update, find-append, ==_iff,
}
use superhero_api.Rooms.Store.{
  Role, member, admin, RelayState, bool_eq, role_eq, relay_eq, Room, Membership, World, is_member,
  find_member,
}
use superhero_api.Rooms.Eligibility.{
  is_eligible, Desired, wants, desired, is_set, prev_state, next_relay_state, is_changed,
  with_desired, new_row, upsert_membership, announce, settle, recompute_member,
}
use superhero_api.Rooms.Eligibility.Transition.{Wanted, next_relay_state-Wanted}
use superhero_api.Rooms.Balances.{balance_at}

-- The row holds what the recompute wanted.
pub record Matches (d : Desired) (row : Membership) : Type 0 where
  pub eligible : row.eligible ≡ d.eligible
  pub role : row.role ≡ d.role
  pub member_pubkey : row.member_pubkey ≡ d.member_pubkey
  pub relay_state : row.relay_state ≡ d.relay_state

-- What a member's row may be afterwards: the wanted one, or still none for a member kept out.
pub data Outcome (d : Desired) (before after : Option Membership) : Type 0 where
  tracked : (row : Membership) → after ≡ some row → Matches d row → Outcome d before after
  untracked : before ≡ none → after ≡ none → d.eligible ≡ false → Outcome d before after

bool_eq→eq : (a b : Bool) → bool_eq a b ≡ true → a ≡ b
bool_eq→eq a b h = ground arith

role_eq→eq : (a b : Role) → role_eq a b ≡ true → a ≡ b
role_eq→eq a b h = ground arith

relay_eq→eq : (a b : RelayState) → relay_eq a b ≡ true → a ≡ b
relay_eq→eq a b h = ground arith

unchanged-Matches :
    (row : Membership) (d : Desired) → is_changed (some row) d ≡ false → Matches d row
unchanged-Matches row d h = record {
  eligible = bool_eq→eq row.eligible d.eligible (ground arith);
  role = role_eq→eq row.role d.role (ground arith);
  member_pubkey = (opt_eq_iff row.member_pubkey d.member_pubkey).0 (ground arith);
  relay_state = relay_eq→eq row.relay_state d.relay_state (ground arith);
}

relay_eq_self : (a : RelayState) → relay_eq a a ≡ true
relay_eq_self a = ground arith

role_eq_self : (a : Role) → role_eq a a ≡ true
role_eq_self a = ground arith

bool_eq_self : (a : Bool) → bool_eq a a ≡ true
bool_eq_self a = ground arith

Matches-unchanged :
    (row : Membership) (d : Desired) → Matches d row → is_changed (some row) d ≡ false
Matches-unchanged row d m = rw (
  m.eligible,
  m.role,
  m.member_pubkey,
  m.relay_state,
  bool_eq_self,
  role_eq_self,
  relay_eq_self,
  (opt_eq_iff d.member_pubkey d.member_pubkey).1 refl,
)

announce_rows :
    (sale address : ℕ) (b : Bool) (d : Desired) (w : World)
    → (announce sale address b d w).memberships ≡ w.memberships
unfolding announce
announce_rows sale address b d w = ground arith

-- The rows after the writing half: one write, or none.
settle_rows :
    (sale address : ℕ) (current : Option Membership) (d : Desired) (w : World)
    → (settle sale address current d w).0.memberships ≡ (
        if not (is_changed current d) || (not (is_some current) && not d.eligible)
        then w.memberships
        else (upsert_membership sale address d current w).memberships)
unfolding settle
settle_rows sale address none d w = ground (
  arith,
  announce_rows sale address (not (bool_eq false d.eligible)) d
      (upsert_membership sale address d none w),
)
settle_rows sale address (some row) d w = elim (Bool-cases (is_changed (some row) d)) [
  | inl e ↦ rw e (
      announce_rows sale address (not (bool_eq row.eligible d.eligible)) d
        (upsert_membership sale address d (some row) w))
  | inr e ↦ rw e
]

is_member_self : (sale address : ℕ) → (sale == sale && address == address) ≡ true
is_member_self sale address = ground arith

find-insert :
    (sale address : ℕ) (d : Desired) (w : World)
    → find_member sale address w ≡ none
    → find_member sale address (upsert_membership sale address d none w)
      ≡ some (new_row w.next_id sale address d)
unfolding upsert_membership
find-insert sale address d w e =
    find-append (is_member sale address) w.memberships _ e ∙ rw (is_member_self sale address)

find-write :
    (sale address : ℕ) (d : Desired) (row : Membership) (w : World)
    → find_member sale address w ≡ some row
    → find_member sale address (upsert_membership sale address d (some row) w)
      ≡ some (with_desired d row)
unfolding upsert_membership
find-write sale address d row w e =
    find-update _ (is_member sale address) (with_desired d) (λ x. refl) w.memberships row e
      ((==_iff row.id row.id).1 refl)

-- The writing half leaves the wanted row, or none for a member that is kept out.
pub settle-Outcome :
    (sale address : ℕ) (current : Option Membership) (d : Desired) (w : World)
    → find_member sale address w ≡ current
    → Outcome d current (find_member sale address (settle sale address current d w).0)
settle-Outcome sale address none d w e =
    let rows = ap (find (is_member sale address)) (settle_rows sale address none d w) in
    elim (Bool-cases d.eligible) [
      | inl wanted ↦
          tracked (new_row w.next_id sale address d)
            (rows
              ∙ ap (find (is_member sale address)) (if-else w.memberships _ (ap not wanted))
              ∙ find-insert sale address d w e)
            (record { eligible = refl; role = refl; member_pubkey = refl; relay_state = refl })
      | inr out ↦ untracked refl (rows ∙ simp out e) out
    ]
settle-Outcome sale address (some row) d w e =
    let rows = ap (find (is_member sale address)) (settle_rows sale address (some row) d w) in
    elim (Bool-cases (is_changed (some row) d)) [
      | inl differs ↦
          tracked (with_desired d row) (rows ∙ rw differs (find-write sale address d row w e))
            (record { eligible = refl; role = refl; member_pubkey = refl; relay_state = refl })
      | inr same ↦ tracked row (rows ∙ rw same e) (unchanged-Matches row d same)
    ]

-- The row holds what was computed for it, or there is still none.
pub recompute_member-Outcome :
    (room : Room) (address : ℕ) (w : World)
    → let before = find_member room.sale_address address w in
      Outcome
        (desired room address before (wants room address none w) (w.pubkey_of address))
        before
        (find_member room.sale_address address (recompute_member room address none none none w).0)
unfolding recompute_member
recompute_member-Outcome room address w = settle-Outcome room.sale_address address _ _ w refl
