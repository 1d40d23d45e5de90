-- ===== src/Rooms/Eviction/Flush/Drained.antt =====
-- flushDueEvictions of reorg-eviction.service.ts: what is due after it.
use superhero_api.Base.{
  ℕ, ◌<◌, Bool, true, false, not, Option, none, some, List, [], ◌∷◌, ◌≡◌, refl, sym, ap, ◌∙◌, arith,
  subst, inl, inr, ◌==◌, ==_iff, Bool-cases, Option-cases, find, find_satisfies, select, update,
  All, All-select, is_some,
}
use superhero_api.Base.Pages.{each}
use superhero_api.Base.Pages.Order.{above-All, All-order_by}
use superhero_api.Base.Todo.{
  Covers, Covers-select, Covers-none, Covers-order_by, HoldsOf, HoldsOf-missing, HoldsOf-found,
}
use superhero_api.Rooms.Store.{Membership, World}
use superhero_api.Rooms.Config.{Config}
use superhero_api.Rooms.Rows.{HasIds, HasIds-update, row_id}
use superhero_api.Rooms.Eviction.{
  Flushed, is_past, is_due_eviction, flush_fresh, flush_row, due_rows, flush_due_evictions,
}
use superhero_api.Rooms.Eviction.Flush.{
  Releases, Released, same, release, flush_fresh-release, flush_fresh_free, flush_row-FlushWrite,
  flush_start, flush_due_evictions_complete,
}

released_update :
    (a : ℕ) (f : Membership → Membership) (rows : List Membership)
    → Releases f
    → HoldsOf row_id (λ m. not (is_some m.held_until_height)) a (update (λ m. m.id == a) f rows)
released_update a f [] r = tt
released_update a f (x ∷ xs) r = (ground (arith, r.hold x, r.keys.id x), released_update a f xs r)

abbrev is_free : Membership → Bool
is_free m = not (is_some m.held_until_height)

-- Once a row has been flushed, no row with its id is held.
flush_row_released :
    (c : Config) (s : Flushed) (row : Membership)
    → HasIds s.world.memberships
    → HoldsOf row_id is_free row.id (flush_row c s row).world.memberships
unfolding flush_row
flush_row_released c s row ids =
    elim (Option-cases (find (λ m. m.id == row.id) s.world.memberships)) [
      | inl e ↦ rw e (HoldsOf-missing row_id is_free row.id s.world.memberships e)
      | inr (fresh, e) ↦ elim (Bool-cases (is_some fresh.held_until_height)) [
        | inl held ↦
            let r =
              subst (λ k. Released k s.world.memberships (flush_fresh c s fresh).world.memberships)
                ((==_iff fresh.id row.id).0 (find_satisfies _ s.world.memberships fresh e))
                (flush_fresh-release c s fresh held) in
            rw e (
              subst (HoldsOf row_id is_free row.id) (sym r.written)
                (released_update row.id r.change s.world.memberships r.is_release))
        | inr free ↦ rw e (
            subst (λ (x : Flushed). HoldsOf row_id is_free row.id x.world.memberships)
              (sym (flush_fresh_free c s fresh free))
              (HoldsOf-found row_id is_free row.id s.world.memberships fresh ids e (ap not free)))
      ]
    ]

flush_row-HasIds :
    (c : Config) (s : Flushed) (row : Membership)
    → HasIds s.world.memberships
    → HasIds (flush_row c s row).world.memberships
flush_row-HasIds c s row ids = elim (flush_row-FlushWrite c s row) [
  | same e ↦ subst HasIds (sym e) ids
  | release r ↦
      subst HasIds (sym r.written) (HasIds-update r.is_release.keys _ s.world.memberships ids)
]

is_past-held : (tip : ℕ) (o : Option ℕ) → is_past tip o ≡ true → is_some o ≡ true
is_past-held tip none h = cc
is_past-held tip (some a) h = refl

free_not_due : (tip : ℕ) (m : Membership) → is_free m ≡ true → is_due_eviction tip m ≡ false
free_not_due tip m h = ground (arith, is_past-held tip m.held_until_height)

-- What is due stays among the rows to come.
Covers-same :
    (tip : ℕ) (row : Membership) (todo rows : List Membership)
    → HoldsOf row_id is_free row.id rows
    → Covers row_id (is_due_eviction tip) (row ∷ todo) rows
    → Covers row_id (is_due_eviction tip) todo rows
Covers-same tip row todo [] f h = tt
Covers-same tip row todo (x ∷ xs) (f, fs) (h, hs) =
    (ground (arith, f, h, free_not_due tip x), Covers-same tip row todo xs fs hs)

Covers-update :
    (tip a : ℕ) (todo rows : List Membership) (f : Membership → Membership)
    → Releases f
    → Covers row_id (is_due_eviction tip) todo rows
    → Covers row_id (is_due_eviction tip) todo (update (λ m. m.id == a) f rows)
Covers-update tip a todo [] f r h = tt
Covers-update tip a todo (x ∷ xs) f r (h, hs) =
    (ground (arith, h, r.hold x, free_not_due tip (f x)), Covers-update tip a todo xs f r hs)

flush_row-Covers :
    (c : Config) (tip : ℕ) (s : Flushed) (row : Membership) (todo : List Membership)
    → HasIds s.world.memberships
    → Covers row_id (is_due_eviction tip) (row ∷ todo) s.world.memberships
    → Covers row_id (is_due_eviction tip) todo (flush_row c s row).world.memberships
flush_row-Covers c tip s row todo ids h =
    Covers-same tip row todo _ (flush_row_released c s row ids)
      (elim (flush_row-FlushWrite c s row) [
        | same e ↦ subst (Covers row_id (is_due_eviction tip) (row ∷ todo)) (sym e) h
        | release r ↦
            subst (Covers row_id (is_due_eviction tip) (row ∷ todo)) (sym r.written)
              (Covers-update tip row.id (row ∷ todo) s.world.memberships r.change r.is_release h)
      ])

each_flush-Covers :
    (c : Config) (tip : ℕ) (todo : List Membership) (s : Flushed)
    → HasIds s.world.memberships
    → Covers row_id (is_due_eviction tip) todo s.world.memberships
    → Covers row_id (is_due_eviction tip) [] (each (flush_row c) s todo).world.memberships
each_flush-Covers c tip [] s ids h = h
each_flush-Covers c tip (row ∷ todo) s ids h =
    each_flush-Covers c tip todo (flush_row c s row) (flush_row-HasIds c s row ids)
      (flush_row-Covers c tip s row todo ids h)

-- When moreover no id is zero, no eviction is due after the flush.
pub flush_due_evictions-All :
    (c : Config) (tip : ℕ) (w : World)
    → 0 < c.reconcile_batch_size
    → HasIds w.memberships
    → All (λ m. 0 < m.id) w.memberships
    → w.tip_height ≡ some tip
    → All (λ m. is_due_eviction tip m ≡ false) (flush_due_evictions c w).world.memberships
flush_due_evictions-All c tip w pos ids up known =
    let all = above-All row_id 0 (due_rows tip (flush_start w)) (
      All-order_by row_id (λ m. 0 < m.id) (select (is_due_eviction tip) w.memberships)
        (All-select (λ m. 0 < m.id) (is_due_eviction tip) w.memberships up)) in
    Covers-none row_id (is_due_eviction tip) _ (
      subst (λ (x : Flushed). Covers row_id (is_due_eviction tip) [] x.world.memberships)
        (sym (
          flush_due_evictions_complete c tip w pos ids known
          ∙ ap (each (flush_row c) (flush_start w)) all))
        (each_flush-Covers c tip (due_rows tip (flush_start w)) (flush_start w) ids (
          Covers-order_by row_id (is_due_eviction tip) (select (is_due_eviction tip) w.memberships)
            w.memberships (Covers-select row_id (is_due_eviction tip) w.memberships))))
