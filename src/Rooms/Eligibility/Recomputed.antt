-- ===== src/Rooms/Eligibility/Recomputed.antt =====
-- recomputeMember of eligibility.service.ts: the row that it leaves, by the tables.
use superhero_api.Base.{
  ℕ, Bool, false, not, ◌&&◌, Option, none, some, sym, subst, leb, includes, ◌≡◌, ap, ◌∙◌, arith,
  if◌then◌else◌,
}
use superhero_api.Rooms.Store.{Role, member, admin, Room, Membership, World, find_member}
use superhero_api.Rooms.Eligibility.{
  is_eligible, wants, desired, is_set, prev_state, next_relay_state, recompute_member,
}
use superhero_api.Rooms.Eligibility.Transition.{Wanted, next_relay_state-Wanted}
use superhero_api.Rooms.Balances.{balance_at}
use superhero_api.Rooms.Eligibility.Member.{Outcome, tracked, untracked, recompute_member-Outcome}

-- Who is to be in the room, from the tables: nobody if the room is deleted, else who is not muted and
-- holds the threshold.
abbrev pub is_allowed : Room → ℕ → World → Bool
is_allowed room address w =
    not room.deleted
    && not (includes address room.muted)
    && leb room.min_token_threshold (balance_at room.token_address address w)

abbrev pub role_for : Room → ℕ → Role
role_for room address = if includes address room.moderators then admin else member

-- The row says who is allowed, with the configured role and the pubkey of the address, and its relay
-- state is one of the listed transitions.
pub record IsWanted (room : Room) (address : ℕ) (w : World) (before : Option Membership)
    (row : Membership) : Type 0 where
  pub eligible : row.eligible ≡ is_allowed room address w
  pub role : row.role ≡ role_for room address
  pub member_pubkey : row.member_pubkey ≡ w.pubkey_of address
  pub relay_state :
      Wanted
        (is_allowed room address w)
        (is_set (w.pubkey_of address))
        (role_for room address)
        (prev_state before)
        row.relay_state

-- The member's row is there as wanted, or there is still none and the member is not allowed.
pub data IsRecomputed (room : Room) (address : ℕ) (w : World)
    : Option Membership → Option Membership → Type 0 where
  written :
      {before : Option Membership} (row : Membership)
      → IsWanted room address w before row
      → IsRecomputed room address w before (some row)
  left_out : is_allowed room address w ≡ false → IsRecomputed room address w none none

wants_lem :
    (room : Room) (address : ℕ) (w : World) → wants room address none w ≡ is_allowed room address w
unfolding wants is_eligible
wants_lem room address w = ground arith

Outcome-IsRecomputed :
    (room : Room) (address : ℕ) (w : World) (before after : Option Membership)
    → Outcome
        (desired room address before (wants room address none w) (w.pubkey_of address))
        before
        after
    → IsRecomputed room address w before after
unfolding desired
Outcome-IsRecomputed room address w before after (tracked row e m) =
    subst (IsRecomputed room address w before) (sym e) (
      written row (record {
        eligible = m.eligible ∙ wants_lem room address w;
        role = m.role;
        member_pubkey = m.member_pubkey;
        relay_state =
            subst
              (λ s.
                Wanted (is_allowed room address w) (is_set (w.pubkey_of address))
                  (role_for room address) (prev_state before) s)
              (sym (
                m.relay_state
                ∙ ap
                    (λ b.
                      next_relay_state b (is_set (w.pubkey_of address)) (role_for room address)
                        (prev_state before))
                    (wants_lem room address w)))
              (next_relay_state-Wanted (is_allowed room address w) (is_set (w.pubkey_of address))
                (role_for room address) (prev_state before));
      }))
Outcome-IsRecomputed room address w before after (untracked e f out) =
    subst (λ o. IsRecomputed room address w o after) (sym e)
      (subst (IsRecomputed room address w none) (sym f)
        (left_out (sym (wants_lem room address w) ∙ out)))

-- recomputeMember, its arguments read here. Afterwards the member's row says whether the member is
-- allowed: the room is not deleted, the member is not muted and holds the threshold. It has the
-- configured role, the pubkey of the address, and a relay state that is a listed transition from the
-- one before. Or there is still no row, and the member is not allowed.
pub recompute_member-IsRecomputed :
    (room : Room) (address : ℕ) (w : World)
    → IsRecomputed room address w
        (find_member room.sale_address address w)
        (find_member room.sale_address address (recompute_member room address none none none w).0)
recompute_member-IsRecomputed room address w =
    Outcome-IsRecomputed room address w _ _ (recompute_member-Outcome room address w)
