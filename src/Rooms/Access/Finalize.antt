-- ===== src/Rooms/Access/Finalize.antt =====
-- finalizeDueRevokes of membership-access.service.ts and the order of the ledger.
use superhero_api.Base.{
  ℕ, ◌*◌, true, false, not, List, [], ◌∷◌, ◌≡◌, refl, ap, ◌∙◌, inl, inr, if◌then◌else◌, find, any,
  All, All-select, All-take, find-update-some, Bool-cases,
}
use superhero_api.Base.Pages.{each}
use superhero_api.Base.Keys.{by_id, any-by_id}
use superhero_api.Rooms.Store.{added, relay_eq, no_access, is_granted, Membership, World, is_member}
use superhero_api.Rooms.Config.{Config}
use superhero_api.Rooms.Rows.{row_id, keeps-is_member, Writes, same, write}
use superhero_api.Rooms.Access.{
  disarm, set_access, holds_access, save_event, is_due, Finalized, revoke, finalize_row,
  finalize_due_revokes,
}
use superhero_api.Rooms.Access.Ledger.{
  Alternates, IsLedgered, IsSnapshot, disarm-KeepsKey, set_access-KeepsKey, disarm-IsLedgered,
  history-Alternates, is_granted→granted, flip-IsLedgered,
}

-- A row stays a reading of the table when columns other than its keys are written.
pub IsSnapshot-Writes :
    (row : Membership) (w w' : World) → Writes w w' → IsSnapshot row w → IsSnapshot row w'
IsSnapshot-Writes row w w' (same e) s = record {
  current = s.current;
  found = ap (find (is_member row.sale_address row.member_address)) e ∙ s.found;
  same_id = s.same_id;
}
IsSnapshot-Writes row w w' (write f p k e) s = record {
  current = if p s.current then f s.current else s.current;
  found =
      ap (find (is_member row.sale_address row.member_address)) e
      ∙ find-update-some p (is_member row.sale_address row.member_address) f
          (keeps-is_member k row.sale_address row.member_address) w.memberships s.current s.found;
  same_id = elim (p s.current) as (λ b. (if b then f s.current else s.current).id ≡ row.id) [
    | true ↦ k.id s.current ∙ s.same_id
    | false ↦ s.same_id
  ];
}

revoke-IsLedgered :
    (now : ℕ) (row : Membership) (s : Finalized)
    → IsSnapshot row s.world
    → IsLedgered s.world
    → IsLedgered (revoke now row s).world
unfolding revoke save_event
revoke-IsLedgered now row s snap v =
    elim (Bool-cases (any (by_id row_id row.id (holds_access true)) s.world.memberships)) [
      | inl won ↦
          let held =
            any-by_id row_id (is_member row.sale_address row.member_address) (holds_access true)
              s.world.memberships snap.current v.ids snap.found (rw snap.same_id won) in
          rw won (
            flip-IsLedgered (set_access-KeepsKey now no_access) (holds_access true) s.world _
              snap.current _ snap.found (rw snap.same_id refl) refl held
              (Alternates.revoke _ _
                (history-Alternates row snap.current s.world _ v snap.found
                  (is_granted→granted _ held))
                refl refl)
              v)
      | inr lost ↦ rw lost v
    ]

finalize_row-Writes :
    (now : ℕ) (s : Finalized) (row : Membership) → Writes s.world (finalize_row now s row).world
unfolding finalize_row revoke save_event
finalize_row-Writes now s row = elim (Bool-cases (relay_eq row.relay_state added)) [
  | inl back ↦ rw back (write disarm _ disarm-KeepsKey refl)
  | inr out ↦ elim (Bool-cases (not (is_granted row.access_state))) [
    | inl resolved ↦ rw (out, resolved) (write disarm _ disarm-KeepsKey refl)
    | inr held ↦
        elim (Bool-cases (any (by_id row_id row.id (holds_access true)) s.world.memberships)) [
          | inl won ↦
              rw (out, held, won)
                (write (set_access now no_access) _ (set_access-KeepsKey now no_access) refl)
          | inr lost ↦ rw (out, held, lost) (same refl)
        ]
  ]
]

finalize_row-IsLedgered :
    (now : ℕ) (s : Finalized) (row : Membership)
    → IsSnapshot row s.world
    → IsLedgered s.world
    → IsLedgered (finalize_row now s row).world
unfolding finalize_row
finalize_row-IsLedgered now s row snap v = elim (Bool-cases (relay_eq row.relay_state added)) [
  | inl back ↦ rw back (disarm-IsLedgered row.id s.world v)
  | inr out ↦ elim (Bool-cases (not (is_granted row.access_state))) [
    | inl resolved ↦ rw (out, resolved) (disarm-IsLedgered row.id s.world v)
    | inr held ↦ rw (out, held) (revoke-IsLedgered now row s snap v)
  ]
]

pub All-IsSnapshot-Writes :
    (rows : List Membership) (w w' : World)
    → Writes w w'
    → All (λ row. IsSnapshot row w) rows
    → All (λ row. IsSnapshot row w') rows
All-IsSnapshot-Writes [] w w' ws h = tt
All-IsSnapshot-Writes (row ∷ rows) w w' ws (h, hs) =
    (IsSnapshot-Writes row w w' ws h, All-IsSnapshot-Writes rows w w' ws hs)

each-IsLedgered :
    (now : ℕ) (rows : List Membership) (s : Finalized)
    → All (λ row. IsSnapshot row s.world) rows
    → IsLedgered s.world
    → IsLedgered (each (finalize_row now) s rows).world
each-IsLedgered now [] s h v = v
each-IsLedgered now (row ∷ rows) s (h, hs) v =
    each-IsLedgered now rows (finalize_row now s row)
      (All-IsSnapshot-Writes rows s.world (finalize_row now s row).world
        (finalize_row-Writes now s row) hs)
      (finalize_row-IsLedgered now s row h v)

-- Every row is the one that its sale and member lead to: the table's unique index.
abbrev pub IsKeyed : World → Type 0
IsKeyed w = All (λ row. IsSnapshot row w) w.memberships

-- A finalizer run over a table with its unique index keeps the ledger alternating for every member:
-- each revoke that it records follows a grant, and is the last event of a row without access.
pub finalize_due_revokes-IsLedgered :
    (c : Config) (now : ℕ) (w : World)
    → IsKeyed w
    → IsLedgered w
    → IsLedgered (finalize_due_revokes c now w).world
unfolding finalize_due_revokes
finalize_due_revokes-IsLedgered c now w keyed v =
    each-IsLedgered now _ (record { world = w; revoked = 0; cancelled = 0 })
      (All-take (λ row. IsSnapshot row w) 500 _
        (All-select (λ row. IsSnapshot row w) (is_due (c.access_revoke_grace_sec * 1000) now)
          w.memberships keyed))
      v
