-- ===== src/Feed/Latest/Step.antt =====
-- From one page to the next: what passes the new cursor is what passed the old one and was not
-- served.
use superhero_api.Base.{
  ℕ, suc, ◌+◌, ◌≤◌, ◌<◌, Bool, true, false, ◌||◌, Option, some, List, [], ◌∷◌, ◌++◌, ◌≡◌, ◌≢◌, refl,
  ap, arith, ltb, ◌==◌, length, take, drop, select,
}
use superhero_api.Base.Count.{
  count, count-take-drop, count_mono, count-le-length, length-take, length-take-drop, drop_short,
}
use superhero_api.Feed.Cursor.{Number}
use superhero_api.Feed.Latest.{
  FeedItem, Tables, LatestCursor, passes, last_item, shown_posts, shown_tokens, shown_trades,
  candidates, has_more,
}
use superhero_api.Feed.Latest.Query.{
  Orders, sort_desc-Orders, newer, count-newer-drop, count-newer_last, take-IsDesc, IsDesc,
}
use superhero_api.Feed.Latest.Fetched.{
  pool, both, and_right, fetched, count-fetch, count-left_over, count-left_over_short,
  count-candidates, count-pool,
}

count-true : (xs : List FeedItem) → count (λ x. true) xs ≡ length xs
count-true [] = refl
count-true (x ∷ xs) = ap suc (count-true xs)

no_flags :
    (a b n x y z : ℕ)
    → b ≡ 0
    → x + (y + z) ≡ 0
    → 0 < n
    → (ltb a b || x == n || y == n || z == n) ≡ false
no_flags a b n x y z e h room = ground arith

not-longer : (a b : ℕ) → ltb a b ≡ false → b ≤ a
not-longer a b h = ground arith

module _ {order : List FeedItem → List FeedItem} (o : Orders order) (date_of : Number → ℕ)
    (cursor : Option LatestCursor) (limit : ℕ) (t : Tables) where
  abbrev unsorted : List FeedItem
  unsorted =
      fetched o date_of cursor limit (shown_posts t)
      ++ (fetched o date_of cursor limit (shown_tokens t)
          ++ fetched o date_of cursor limit (shown_trades t))

  abbrev found_all : List FeedItem
  found_all = candidates order date_of t cursor limit

  abbrev pub served : List FeedItem
  served = take limit found_all

  -- What passes the cursor.
  abbrev pub waiting : List FeedItem
  waiting = select (passes date_of cursor) (pool t)

  found_all-take-drop :
      (r : FeedItem → Bool) → count r served + count r (drop limit found_all) ≡ count r found_all
  found_all-take-drop r = count-take-drop r limit found_all

  -- A page serves nothing that does not wait.
  pub count-served-le : (r : FeedItem → Bool) → count r served ≤ count r waiting
  count-served-le r = omega (
    arith,
    found_all-take-drop r,
    count-candidates o date_of cursor limit t r,
    count-pool o date_of cursor limit t r,
    count-fetch o date_of cursor limit r (shown_posts t),
    count-fetch o date_of cursor limit r (shown_tokens t),
    count-fetch o date_of cursor limit r (shown_trades t),
  )

  module _ (l : FeedItem) (e : last_item served ≡ some l) where
    abbrev k : ℕ
    k = l.created_at

    drop-newer : count (newer k) (drop limit found_all) ≡ 0
    drop-newer = count-newer-drop limit found_all l (sort_desc-Orders.desc unsorted) e

    fetched-newer :
        count (newer k) (fetched o date_of cursor limit (shown_posts t))
          + (count (newer k) (fetched o date_of cursor limit (shown_tokens t))
              + count (newer k) (fetched o date_of cursor limit (shown_trades t)))
        < limit
    fetched-newer = omega (
      arith,
      found_all-take-drop (newer k),
      drop-newer,
      count-candidates o date_of cursor limit t (newer k),
      count-newer_last served l e,
      length-take limit found_all,
    )

    source-newer :
        (r : FeedItem → Bool) (shown : List FeedItem)
        → count (newer k) (fetched o date_of cursor limit shown) < limit
        → count (both r (newer k)) (select (passes date_of cursor) shown)
          ≡ count (both r (newer k)) (fetched o date_of cursor limit shown)
    source-newer r shown h = omega (
      arith,
      count-fetch o date_of cursor limit (both r (newer k)) shown,
      count-left_over o date_of cursor limit r k shown h,
    )

    -- All that waits and is newer than the last item is served.
    pub count-waiting_newer :
        (r : FeedItem → Bool) → count (both r (newer k)) waiting ≤ count (both r (newer k)) served
    count-waiting_newer r = omega (
      arith,
      found_all-take-drop (both r (newer k)),
      drop-newer,
      count_mono (both r (newer k)) (newer k) (λ x. and_right (r x) (newer k x))
          (drop limit found_all),
      count-candidates o date_of cursor limit t (both r (newer k)),
      count-pool o date_of cursor limit t (both r (newer k)),
      source-newer r (shown_posts t) (omega (arith, fetched-newer)),
      source-newer r (shown_tokens t) (omega (arith, fetched-newer)),
      source-newer r (shown_trades t) (omega (arith, fetched-newer)),
    )

  source_short :
      (r : FeedItem → Bool) (shown : List FeedItem)
      → length (fetched o date_of cursor limit shown) ≢ limit
      → count r (select (passes date_of cursor) shown)
        ≡ count r (fetched o date_of cursor limit shown)
  source_short r shown h = omega (
    arith,
    count-fetch o date_of cursor limit r shown,
    count-left_over_short o date_of cursor limit r shown h,
  )

  -- Without more, the page serves all that waits.
  pub count-served_all :
      (r : FeedItem → Bool)
      → has_more order date_of t cursor limit ≡ false
      → count r waiting ≡ count r served
  count-served_all r h = omega (
    arith,
    found_all-take-drop r,
    count-candidates o date_of cursor limit t r,
    count-pool o date_of cursor limit t r,
    source_short r (shown_posts t) (ground arith),
    source_short r (shown_tokens t) (ground arith),
    source_short r (shown_trades t) (ground arith),
    count-le-length r (drop limit found_all),
    length-take-drop limit found_all,
    not-longer (length served) (length found_all) (ground arith),
  )

  pub served-IsDesc : IsDesc served
  served-IsDesc = take-IsDesc limit found_all (sort_desc-Orders.desc unsorted)

  -- A page with room for an item and none on it is the last one.
  pub has_more_empty : 0 < limit → length served ≡ 0 → has_more order date_of t cursor limit ≡ false
  has_more_empty room empty =
      let drops : length (drop limit found_all) ≡ 0 =
        ap length (drop_short limit found_all (omega arith)) in
      let none_found : length found_all ≡ 0 =
        omega (arith, length-take-drop limit found_all, drops) in
      let counted : length (fetched o date_of cursor limit (shown_posts t))
            + (length (fetched o date_of cursor limit (shown_tokens t))
                + length (fetched o date_of cursor limit (shown_trades t)))
          ≡ 0 =
        omega (
          arith,
          none_found,
          count-candidates o date_of cursor limit t (λ x. true),
          count-true found_all,
          count-true (fetched o date_of cursor limit (shown_posts t)),
          count-true (fetched o date_of cursor limit (shown_tokens t)),
          count-true (fetched o date_of cursor limit (shown_trades t)),
        ) in
      no_flags (length served) (length found_all) limit _ _ _ none_found counted room
