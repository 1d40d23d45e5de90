-- ===== src/Feed/Latest.antt =====
-- src/feed/feed.controller.ts: the pages of the combined feed, newest first. The tables' rows are
-- those of posts, tokens and transactions, with the columns that the queries read. `date_of` is what
-- `new Date` makes of a cursor's time; `order` is the database's ORDER BY created_at DESC, which may
-- put rows of one time in any order. Times are whole milliseconds.
pub mod Descending
pub mod Query
pub mod Fetched
pub mod Filter
pub mod Step
pub mod Next
pub mod Walk
use superhero_api.Base.{
  ℕ, suc, Bool, true, false, not, ◌&&◌, ◌||◌, Option, none, some, List, [], ◌∷◌, ◌++◌, map, ◌==◌,
  ltb, leb, if◌then◌else◌, min, max, includes, dedup, any, find, is_some, length, take, select,
}
use superhero_api.Feed.Cursor.{
  FeedSort, Number, whole, other, FeedCursor, latest_cursor, hot_cursor,
}

pub record Post : Type 0 where
  pub id : ℕ
  pub created_at : ℕ
  pub is_hidden : Bool

pub record Token : Type 0 where
  pub sale_address : ℕ
  pub created_at : ℕ
  pub unlisted : Bool

pub data TxType : Type 0 where
  buy sell create_community : TxType

pub record Transaction : Type 0 where
  pub tx_hash : ℕ
  pub sale_address : ℕ
  pub created_at : ℕ
  pub tx_type : TxType

pub record Tables : Type 0 where
  pub posts : List Post
  pub tokens : List Token
  pub transactions : List Transaction

pub data FeedItemType : Type 0 where
  post token_created trade : FeedItemType

-- An item: of its data, the primary key, which getFeedItemId reads.
pub record FeedItem : Type 0 where
  pub type : FeedItemType
  pub created_at : ℕ
  pub id : ℕ

abbrev pub post_item : Post → FeedItem
post_item p = record { type = post; created_at = p.created_at; id = p.id }

abbrev pub token_item : Token → FeedItem
token_item t = record { type = token_created; created_at = t.created_at; id = t.sale_address }

abbrev pub trade_item : Transaction → FeedItem
trade_item t = record { type = trade; created_at = t.created_at; id = t.tx_hash }

abbrev pub is_trade : TxType → Bool
is_trade create_community = false
is_trade _ = true

-- The rows that each source shows; a trade is joined with its listed token.
abbrev pub shown_posts : Tables → List FeedItem
shown_posts t = map post_item (select (λ p. not p.is_hidden) t.posts)

abbrev pub shown_tokens : Tables → List FeedItem
shown_tokens t = map token_item (select (λ t. not t.unlisted) t.tokens)

abbrev pub is_listed : Tables → ℕ → Bool
is_listed t sale = any (λ (k : Token). k.sale_address == sale && not k.unlisted) t.tokens

abbrev pub shown_trades : Tables → List FeedItem
shown_trades t =
    map trade_item (
      select (λ (x : Transaction). is_listed t x.sale_address && is_trade x.tx_type) t.transactions)

pub record LatestCursor : Type 0 where
  pub ts : Number
  pub seen_ids : List ℕ

abbrev pub excludes : List ℕ → FeedItem → ℕ → Bool
excludes [] x before = false
excludes (i ∷ ids) x before = x.created_at == before && not (includes x.id (i ∷ ids))

-- applyCursorFilter
unfoldable pub passes : (Number → ℕ) → Option LatestCursor → FeedItem → Bool
passes date_of none x = true
passes date_of (some c) x = ltb x.created_at (date_of c.ts) || excludes c.seen_ids x (date_of c.ts)

-- A stable sort, newest first.
insert_desc : FeedItem → List FeedItem → List FeedItem
insert_desc r [] = r ∷ []
insert_desc r (x ∷ xs) = if leb x.created_at r.created_at then r ∷ x ∷ xs else x ∷ insert_desc r xs

unfoldable pub sort_desc : List FeedItem → List FeedItem
unfolding insert_desc
sort_desc [] = []
sort_desc (x ∷ xs) = insert_desc x (sort_desc xs)

-- A page, with the cursor that next_cursor encodes.
pub record Page : Type 0 where
  pub items : List FeedItem
  pub next : Option LatestCursor

abbrev pub is_whole : Number → ℕ → Bool
is_whole (whole n) cutoff = n == cutoff
is_whole (other finite negative which) cutoff = false

abbrev pub carried : Option LatestCursor → ℕ → List ℕ
carried none cutoff = []
carried (some c) cutoff = if is_whole c.ts cutoff then c.seen_ids else []

abbrev pub stays : Option LatestCursor → ℕ → Bool
stays none cutoff = false
stays (some c) cutoff = is_whole c.ts cutoff

abbrev pub item_id : FeedItem → ℕ
item_id x = x.id

abbrev pub ids_at : ℕ → List FeedItem → List ℕ
ids_at cutoff items = map item_id (select (λ x. x.created_at == cutoff) items)

abbrev pub seen_after : Option LatestCursor → ℕ → List FeedItem → List ℕ
seen_after cursor cutoff items =
    if stays cursor cutoff
    then dedup (carried cursor cutoff ++ ids_at cutoff items)
    else ids_at cutoff items

abbrev pub last_item : List FeedItem → Option FeedItem
last_item [] = none
last_item (x ∷ []) = some x
last_item (x ∷ y ∷ xs) = last_item (y ∷ xs)

abbrev pub cursor_after :
    Option LatestCursor → List FeedItem → Option FeedItem → Bool → Option LatestCursor
cursor_after cursor items none more = none
cursor_after cursor items (some last) false = none
cursor_after cursor items (some last) true =
    some (record { ts = whole last.created_at; seen_ids = seen_after cursor last.created_at items })

module _ (order : List FeedItem → List FeedItem) (date_of : Number → ℕ) where
  -- fetchPosts, fetchTokenCreations and fetchTrades: their common query.
  unfoldable pub fetch : Option LatestCursor → ℕ → List FeedItem → List FeedItem
  unfolding passes
  fetch cursor limit shown = take limit (order (select (passes date_of cursor) shown))

  abbrev pub candidates : Tables → Option LatestCursor → ℕ → List FeedItem
  candidates t cursor limit = sort_desc (
      fetch cursor limit (shown_posts t)
      ++ (fetch cursor limit (shown_tokens t) ++ fetch cursor limit (shown_trades t)))

  abbrev pub is_full : Tables → Option LatestCursor → ℕ → List FeedItem → Bool
  is_full t cursor limit shown = length (fetch cursor limit shown) == limit

  abbrev pub has_more : Tables → Option LatestCursor → ℕ → Bool
  has_more t cursor limit =
      ltb (length (take limit (candidates t cursor limit))) (length (candidates t cursor limit))
      || is_full t cursor limit (shown_posts t)
      || is_full t cursor limit (shown_tokens t)
      || is_full t cursor limit (shown_trades t)

  unfoldable pub get_latest_feed : Tables → Option LatestCursor → ℕ → Page
  unfolding fetch sort_desc
  get_latest_feed t cursor limit =
      let items = take limit (candidates t cursor limit) in
      record {
        items = items;
        next = cursor_after cursor items (last_item items) (has_more t cursor limit);
      }

abbrev pub clamp_limit : ℕ → ℕ
clamp_limit limit = min (max limit 1) 50
