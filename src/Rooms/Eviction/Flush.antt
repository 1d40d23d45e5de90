-- ===== src/Rooms/Eviction/Flush.antt =====
-- flushDueEvictions of reorg-eviction.service.ts: its pages and its rows.
pub mod Drained
use superhero_api.Base.{
  ℕ, suc, ◌≤◌, ◌<◌, true, false, not, none, some, List, [], ◌∷◌, ◌≡◌, refl, ap, ◌∙◌, subst, inl,
  inr, ◌==◌, ==_iff, if◌then◌else◌, if-then, Bool-cases, Option-cases, find, find_satisfies, select,
  update, length, is_some,
}
use superhero_api.Base.Pages.{each, order_by, above, pages, pages_complete}
use superhero_api.Base.Pages.Order.{above-order_by-update}
use superhero_api.Rooms.Store.{Membership, World}
use superhero_api.Rooms.Config.{Config, is_configured_admin}
use superhero_api.Rooms.Eligibility.{is_set}
use superhero_api.Rooms.Rows.{query-Ascends, query-length, HasIds, row_id, KeepsKey}
use superhero_api.Rooms.Eviction.{
  Flushed, is_due_eviction, clear_hold, start_removal, cancel_eviction, publish_eviction,
  flush_fresh, flush_row, due_rows, flush_due_evictions,
}

-- What one due row does to the table: the row with its id is no longer held.
pub record Releases (f : Membership → Membership) : Type 0 where
  pub keys : KeepsKey f
  pub hold : (m : Membership) → (f m).held_until_height ≡ none

clear_hold-Releases : Releases clear_hold
clear_hold-Releases = record {
  keys = record { sale = λ m. refl; address = λ m. refl; id = λ m. refl };
  hold = λ m. refl;
}

start_removal-Releases : Releases start_removal
start_removal-Releases = record {
  keys = record { sale = λ m. refl; address = λ m. refl; id = λ m. refl };
  hold = λ m. refl;
}

pub record Released (id : ℕ) (rows rows' : List Membership) : Type 0 where
  pub change : Membership → Membership
  pub is_release : Releases change
  pub written : rows' ≡ update (λ m. m.id == id) change rows

pub data FlushWrite (id : ℕ) (rows rows' : List Membership) : Type 0 where
  same : rows' ≡ rows → FlushWrite id rows rows'
  release : Released id rows rows' → FlushWrite id rows rows'

pub flush_fresh_free :
    (c : Config) (s : Flushed) (fresh : Membership)
    → is_some fresh.held_until_height ≡ false
    → flush_fresh c s fresh ≡ s
unfolding flush_fresh
flush_fresh_free c s fresh free = if-then s _ (ap not free)

-- A held row is released, whichever way it goes.
pub flush_fresh-release :
    (c : Config) (s : Flushed) (fresh : Membership)
    → is_some fresh.held_until_height ≡ true
    → Released fresh.id s.world.memberships (flush_fresh c s fresh).world.memberships
unfolding flush_fresh
flush_fresh-release c s fresh held =
    let cleared : Released fresh.id s.world.memberships
        (cancel_eviction fresh s).world.memberships =
      record { change = clear_hold; is_release = clear_hold-Releases; written = refl } in
    rw held
      (elim fresh.eligible
        as (λ b.
          Released fresh.id s.world.memberships
            (if b
              then cancel_eviction fresh s
              else if is_configured_admin c fresh.member_pubkey
              then cancel_eviction fresh s
              else if not (is_set fresh.member_pubkey)
              then cancel_eviction fresh s
              else publish_eviction fresh s).world.memberships) [
                | true ↦ cleared
                | false ↦
                    elim (is_configured_admin c fresh.member_pubkey)
                      as (λ b.
                        Released fresh.id s.world.memberships
                          (if b
                            then cancel_eviction fresh s
                            else if not (is_set fresh.member_pubkey)
                            then cancel_eviction fresh s
                            else publish_eviction fresh s).world.memberships) [
                              | true ↦ cleared
                              | false ↦
                                  elim (not (is_set fresh.member_pubkey))
                                    as (λ b.
                                      Released fresh.id s.world.memberships
                                        (if b
                                          then cancel_eviction fresh s
                                          else publish_eviction fresh s).world.memberships) [
                                            | true ↦ cleared
                                            | false ↦ record {
                                              change = start_removal;
                                              is_release = start_removal-Releases;
                                              written = refl;
                                            }
                                          ]
                            ]
              ])

pub flush_row-FlushWrite :
    (c : Config) (s : Flushed) (row : Membership)
    → FlushWrite row.id s.world.memberships (flush_row c s row).world.memberships
unfolding flush_row
flush_row-FlushWrite c s row =
    elim (Option-cases (find (λ m. m.id == row.id) s.world.memberships)) [
      | inl e ↦ rw e (same refl)
      | inr (fresh, e) ↦
          let id = (==_iff fresh.id row.id).0 (find_satisfies _ s.world.memberships fresh e) in
          rw e (elim (Bool-cases (is_some fresh.held_until_height)) [
            | inl held ↦ release (
                subst
                  (λ k. Released k s.world.memberships (flush_fresh c s fresh).world.memberships) id
                  (flush_fresh-release c s fresh held))
            | inr free ↦
                same (ap (λ (x : Flushed). x.world.memberships) (flush_fresh_free c s fresh free))
          ])
    ]

-- The walk goes on over the rows that it would have found.
flush_row_stable :
    (c : Config) (tip : ℕ) (s : Flushed) (row : Membership) (k : ℕ)
    → row.id ≤ k
    → above row_id k (due_rows tip (flush_row c s row)) ≡ above row_id k (due_rows tip s)
flush_row_stable c tip s row k le = elim (flush_row-FlushWrite c s row) [
  | same e ↦ ap (λ rows. above row_id k (order_by row_id (select (is_due_eviction tip) rows))) e
  | release r ↦
      ap (λ rows. above row_id k (order_by row_id (select (is_due_eviction tip) rows))) r.written
      ∙ above-order_by-update row_id (is_due_eviction tip) r.change r.is_release.keys.id row.id k
          s.world.memberships le
]

abbrev pub flush_start : World → Flushed
flush_start w = record { world = w; published = 0; cancelled = 0; group_ids = [] }

-- With distinct ids, a page size that is not zero and a known height, the paged flush is one pass over
-- the rows that were due at the start, in the order of their ids.
pub flush_due_evictions_complete :
    (c : Config) (tip : ℕ) (w : World)
    → 0 < c.reconcile_batch_size
    → HasIds w.memberships
    → w.tip_height ≡ some tip
    → flush_due_evictions c w
      ≡ each (flush_row c) (flush_start w) (above row_id 0 (due_rows tip (flush_start w)))
unfolding flush_due_evictions
flush_due_evictions_complete c tip w pos ids known =
    ap
      (λ o. elim o as (λ _. Flushed) [
        | none ↦ flush_start w
        | some t ↦
            pages row_id (due_rows t) (flush_row c) c.reconcile_batch_size
              (suc (length w.memberships)) 0 (flush_start w)
      ])
      known
    ∙ pages_complete row_id (due_rows tip) (flush_row c) (flush_row_stable c tip)
        c.reconcile_batch_size (suc (length w.memberships)) 0 (flush_start w) pos
        (query-Ascends (is_due_eviction tip) 0 w.memberships ids)
        (query-length (is_due_eviction tip) 0 w.memberships)
