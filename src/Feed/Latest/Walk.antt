-- ===== src/Feed/Latest/Walk.antt =====
-- Following next_cursor from page to page.
use superhero_api.Base.{
  ℕ, zero, suc, ◌+◌, ◌≤◌, ◌<◌, Bool, true, false, Option, none, some, List, [], ◌++◌, ◌≡◌, ap, sym,
  subst, ◌∙◌, arith, length, All, All-append, Bool-cases, Option-cases, inl, inr, select,
}
use superhero_api.Base.Count.{
  count, count-append, count-le-length, count_zero, count-select, count_ext,
}
use superhero_api.Feed.Cursor.{Number, whole}
use superhero_api.Feed.Latest.{
  FeedItem, Tables, LatestCursor, passes, last_item, cursor_after, has_more, get_latest_feed,
}
use superhero_api.Feed.Latest.Query.{Orders, IsDesc, older, count-older_last}
use superhero_api.Feed.Latest.Fetched.{pool}
use superhero_api.Feed.Latest.Filter.{has_id, IsIssued, cursor_at}
use superhero_api.Feed.Latest.Step.{
  served, waiting, served-IsDesc, count-served_all, has_more_empty,
}
use superhero_api.Feed.Latest.Next.{
  served-All, seen, count-waiting_next, count-passes_next, passes-next-passes,
}
use superhero_api.Feed.Latest.Descending.{
  last_item-none, All-mono, All-NotNewer, append-IsDesc, first_page,
}

abbrev follow : (Option LatestCursor → List FeedItem) → Option LatestCursor → List FeedItem
follow rest none = []
follow rest (some c) = rest (some c)

-- The items of at most `fuel` pages, each asked for with the cursor of the one before.
unfoldable pub walk :
    (List FeedItem → List FeedItem)
    → (Number → ℕ)
    → Tables
    → ℕ
    → ℕ
    → Option LatestCursor
    → List FeedItem
unfolding get_latest_feed
walk order date_of t limit zero cursor = []
walk order date_of t limit (suc fuel) cursor =
    let page = get_latest_feed order date_of t cursor limit in
    page.items ++ follow (walk order date_of t limit fuel) page.next

module _ {order : List FeedItem → List FeedItem} (o : Orders order) (date_of : Number → ℕ)
    (wholes : (n : ℕ) → date_of (whole n) ≡ n) (limit : ℕ) (t : Tables) (room : 0 < limit)
    (unique : (a : ℕ) → count (has_id a) (pool t) ≤ 1) where
  abbrev left : Option LatestCursor → ℕ
  left cursor = count (passes date_of cursor) (pool t)

  abbrev items : Option LatestCursor → List FeedItem
  items cursor = served o date_of cursor limit t

  abbrev after :
      (cursor : Option LatestCursor) (issued : IsIssued date_of cursor) (l : FeedItem)
      → last_item (items cursor) ≡ some l
      → Option LatestCursor
  after cursor issued l e = cursor_at l.created_at (seen o date_of wholes cursor limit t issued l e)

  after-IsIssued :
      (cursor : Option LatestCursor) (issued : IsIssued date_of cursor) (l : FeedItem)
      (e : last_item (items cursor) ≡ some l)
      → IsIssued date_of (after cursor issued l e)
  after-IsIssued cursor issued l e = ground (arith, wholes l.created_at)

  -- A property of pages holds of the walk, if it holds of a last page and of one with more.
  walk-case :
      (fuel : ℕ) (cursor : Option LatestCursor) (issued : IsIssued date_of cursor)
      (Q : List FeedItem → Type 0)
      → (has_more order date_of t cursor limit ≡ false → Q (served o date_of cursor limit t ++ []))
      → ((l : FeedItem) (e : last_item (served o date_of cursor limit t) ≡ some l)
          → Q (
              served o date_of cursor limit t
              ++ walk order date_of t limit fuel
                  (cursor_at l.created_at (seen o date_of wholes cursor limit t issued l e))))
      → Q (walk order date_of t limit (suc fuel) cursor)
  unfolding walk
  walk-case fuel cursor issued Q last more = elim (Option-cases (last_item (items cursor))) [
    | inl e ↦
        subst (λ m. Q (items cursor ++ rest (cursor_after cursor (items cursor) m full))) (sym e)
          (last (
            has_more_empty o date_of cursor limit t room
              (ap length (last_item-none (items cursor) e))))
    | inr (l, e) ↦
        subst (λ m. Q (items cursor ++ rest (cursor_after cursor (items cursor) m full))) (sym e)
          (elim (Bool-cases full) [
            | inl h ↦
                subst
                  (λ b. Q (items cursor ++ rest (cursor_after cursor (items cursor) (some l) b)))
                  (sym h) (more l e)
            | inr h ↦
                subst
                  (λ b. Q (items cursor ++ rest (cursor_after cursor (items cursor) (some l) b)))
                  (sym h) (last h)
          ])
  ]
    where
      full : Bool
      full = has_more order date_of t cursor limit

      rest : Option LatestCursor → List FeedItem
      rest = follow (walk order date_of t limit fuel)

  -- Of each id, the walk serves what waits.
  count-walk :
      (fuel : ℕ) (cursor : Option LatestCursor)
      → IsIssued date_of cursor
      → left cursor < fuel
      → (a : ℕ)
      → count (has_id a) (walk order date_of t limit fuel cursor)
        ≡ count (has_id a) (waiting o date_of cursor limit t)
  count-walk zero cursor issued enough a = absurd (omega arith)
  count-walk (suc fuel) cursor issued enough a =
      walk-case fuel cursor issued
        (λ xs. count (has_id a) xs ≡ count (has_id a) (waiting o date_of cursor limit t))
        (λ h. omega (
          arith,
          count-append (has_id a) (items cursor) [],
          count-served_all o date_of cursor limit t (has_id a) h,
        ))
        λ l e.
          count-append (has_id a) (items cursor)
            (walk order date_of t limit fuel (after cursor issued l e))
          ∙ ap (λ (n : ℕ). count (has_id a) (items cursor) + n)
              (count-walk fuel (after cursor issued l e) (after-IsIssued cursor issued l e)
                (omega (arith, count-passes_next o date_of wholes cursor limit t issued l e)) a)
          ∙ sym (count-waiting_next o date_of wholes cursor limit t issued l e unique a)

  -- Nothing that a walk serves is newer than its start allows.
  walk-All :
      (fuel : ℕ) (cursor : Option LatestCursor)
      → IsIssued date_of cursor
      → All (λ x. passes date_of cursor x ≡ true) (walk order date_of t limit fuel cursor)
  unfolding walk
  walk-All zero cursor issued = tt
  walk-All (suc fuel) cursor issued =
      walk-case fuel cursor issued (All (λ x. passes date_of cursor x ≡ true))
        (λ h. All-append _ (items cursor) [] (served-All o date_of wholes cursor limit t issued) tt)
        λ l e.
          All-append _ (items cursor) (walk order date_of t limit fuel (after cursor issued l e))
            (served-All o date_of wholes cursor limit t issued)
            (All-mono (passes-next-passes o date_of wholes cursor limit t issued l e) _
              (walk-All fuel (after cursor issued l e) (after-IsIssued cursor issued l e)))

  walk-IsDesc :
      (fuel : ℕ) (cursor : Option LatestCursor)
      → IsIssued date_of cursor
      → IsDesc (walk order date_of t limit fuel cursor)
  unfolding walk
  walk-IsDesc zero cursor issued = tt
  walk-IsDesc (suc fuel) cursor issued =
      walk-case fuel cursor issued IsDesc
        (λ h.
          append-IsDesc 0 (items cursor) [] (served-IsDesc o date_of cursor limit t) tt
            (count_zero (older 0) (λ x. ground arith) (items cursor)) tt)
        λ l e.
          append-IsDesc l.created_at (items cursor)
            (walk order date_of t limit fuel (after cursor issued l e))
            (served-IsDesc o date_of cursor limit t)
            (walk-IsDesc fuel (after cursor issued l e) (after-IsIssued cursor issued l e))
            (count-older_last (items cursor) l (served-IsDesc o date_of cursor limit t) e)
            (All-NotNewer date_of wholes l.created_at
              (seen o date_of wholes cursor limit t issued l e) _
              (walk-All fuel (after cursor issued l e) (after-IsIssued cursor issued l e)))

-- Where the database orders by time and each id stands on one row at most, following next_cursor
-- from the first page, over tables that do not change and with room for an item on each page, serves
-- each item that the feed shows as often as it is there, newest first.
pub walk_complete :
    {order : List FeedItem → List FeedItem} (date_of : Number → ℕ) (limit : ℕ) (t : Tables)
    → Orders order
    → ((n : ℕ) → date_of (whole n) ≡ n)
    → 0 < limit
    → ((a : ℕ) → count (has_id a) (pool t) ≤ 1)
    → ((a : ℕ)
        → count (has_id a) (walk order date_of t limit (suc (length (pool t))) none)
          ≡ count (has_id a) (pool t))
      × IsDesc (walk order date_of t limit (suc (length (pool t))) none)
walk_complete date_of limit t o wholes room unique = (
  λ a.
      count-walk o date_of wholes limit t room unique (suc (length (pool t))) none tt
        (ground (arith, count-le-length (passes date_of none) (pool t))) a
      ∙ select_all (pool t) a,
  walk-IsDesc o date_of wholes limit t room unique (suc (length (pool t))) none tt,
)
  where
    select_all :
        (xs : List FeedItem) (a : ℕ)
        → count (has_id a) (select (passes date_of none) xs) ≡ count (has_id a) xs
    select_all xs a =
        count-select (has_id a) (passes date_of none) xs
        ∙ count_ext _ _ (λ x. first_page date_of (has_id a) x) xs
