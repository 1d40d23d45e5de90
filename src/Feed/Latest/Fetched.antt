-- ===== src/Feed/Latest/Fetched.antt =====
-- What one source's query leaves behind, and the pool of all three.
use superhero_api.Base.{
  ℕ, ◌+◌, ◌<◌, Bool, true, ◌&&◌, Option, List, ◌++◌, ◌≡◌, ◌≢◌, ap, ◌∙◌, arith, length, drop, select,
}
use superhero_api.Base.Count.{
  count, count-append, count-take-drop, count_mono, length-take, drop_short, count-select-append,
}
use superhero_api.Feed.Cursor.{Number}
use superhero_api.Feed.Latest.{
  FeedItem, Tables, LatestCursor, shown_posts, shown_tokens, shown_trades, passes, fetch,
  candidates,
}
use superhero_api.Feed.Latest.Query.{Orders, sort_desc-Orders, newer, count-newer-take}

-- Every item that the feed shows.
abbrev pub pool : Tables → List FeedItem
pool t = shown_posts t ++ (shown_tokens t ++ shown_trades t)

abbrev pub both : (FeedItem → Bool) → (FeedItem → Bool) → FeedItem → Bool
both p q x = p x && q x

pub and_left : (a b : Bool) → (a && b) ≡ true → a ≡ true
and_left a b h = ground arith

pub and_right : (a b : Bool) → (a && b) ≡ true → b ≡ true
and_right a b h = ground arith

module _ {order : List FeedItem → List FeedItem} (o : Orders order) (date_of : Number → ℕ)
    (cursor : Option LatestCursor) (limit : ℕ) where
  abbrev pub fetched : List FeedItem → List FeedItem
  fetched = fetch order date_of cursor limit

  abbrev pub left_over : List FeedItem → List FeedItem
  left_over shown = drop limit (order (select (passes date_of cursor) shown))

  -- What passes the cursor's filter is fetched or left over.
  pub count-fetch :
      (r : FeedItem → Bool) (shown : List FeedItem)
      → count r (fetch order date_of cursor limit shown) + count r (left_over shown)
        ≡ count r (select (passes date_of cursor) shown)
  unfolding fetch
  count-fetch r shown =
      count-take-drop r limit (order (select (passes date_of cursor) shown))
      ∙ o.counts r (select (passes date_of cursor) shown)

  -- Unless a whole page was newer, nothing newer was left over.
  pub count-left_over :
      (r : FeedItem → Bool) (k : ℕ) (shown : List FeedItem)
      → count (newer k) (fetch order date_of cursor limit shown) < limit
      → count (both r (newer k)) (left_over shown) ≡ 0
  unfolding fetch
  count-left_over r k shown h = ground (
    arith,
    count_mono (both r (newer k)) (newer k) (λ x. and_right (r x) (newer k x)) (left_over shown),
    count-newer-take k limit (order (select (passes date_of cursor) shown))
        (o.desc (select (passes date_of cursor) shown)),
  )

  pub count-left_over_short :
      (r : FeedItem → Bool) (shown : List FeedItem)
      → length (fetch order date_of cursor limit shown) ≢ limit
      → count r (left_over shown) ≡ 0
  unfolding fetch
  count-left_over_short r shown h = ap (count r) (
      drop_short limit (order (select (passes date_of cursor) shown))
        (omega (arith, h, length-take limit (order (select (passes date_of cursor) shown)))))

  module _ (t : Tables) where
    -- The candidates are what the sources fetched.
    pub count-candidates :
        (r : FeedItem → Bool)
        → count r (candidates order date_of t cursor limit)
          ≡ count r (fetch order date_of cursor limit (shown_posts t))
            + (count r (fetch order date_of cursor limit (shown_tokens t))
                + count r (fetch order date_of cursor limit (shown_trades t)))
    count-candidates r = omega (
      arith,
      sort_desc-Orders.counts r
          (fetched (shown_posts t) ++ (fetched (shown_tokens t) ++ fetched (shown_trades t))),
      count-append r (fetched (shown_posts t))
          (fetched (shown_tokens t) ++ fetched (shown_trades t)),
      count-append r (fetched (shown_tokens t)) (fetched (shown_trades t)),
    )

    pub count-pool :
        (r : FeedItem → Bool)
        → count r (select (passes date_of cursor) (pool t))
          ≡ count r (select (passes date_of cursor) (shown_posts t))
            + (count r (select (passes date_of cursor) (shown_tokens t))
                + count r (select (passes date_of cursor) (shown_trades t)))
    count-pool r = omega (
      arith,
      count-select-append r (passes date_of cursor) (shown_posts t)
          (shown_tokens t ++ shown_trades t),
      count-select-append r (passes date_of cursor) (shown_tokens t) (shown_trades t),
    )
