-- ===== src/Feed/Latest/Filter.antt =====
-- The cursor's filter, at one item, and the ids that a cursor excludes.
use superhero_api.Base.{
  ℕ, ◌<◌, Bool, true, false, not, ◌&&◌, ◌||◌, Option, none, some, List, [], ◌∷◌, ◌++◌, ◌≡◌, refl,
  subst, arith, ◌==◌, includes, includes-append, includes-dedup,
}
use superhero_api.Base.Count.{count}
use superhero_api.Feed.Cursor.{Number, whole, other}
use superhero_api.Feed.Latest.{
  FeedItem, LatestCursor, passes, is_whole, carried, ids_at, seen_after, last_item,
}
use superhero_api.Feed.Latest.Query.{newer, older}
use superhero_api.Feed.Latest.Fetched.{both}

abbrev pub has_id : ℕ → FeedItem → Bool
has_id a x = x.id == a

abbrev pub at : ℕ → FeedItem → Bool
at k x = x.created_at == k

-- The time of a cursor that the feed has made.
abbrev pub IsIssued : (Number → ℕ) → Option LatestCursor → Type 0
IsIssued date_of none = Unit {0}
IsIssued date_of (some c) = is_whole c.ts (date_of c.ts) ≡ true

abbrev pub cursor_at : ℕ → List ℕ → Option LatestCursor
cursor_at k ids = some (record { ts = whole k; seen_ids = ids })

module _ (k : ℕ) where
  includes-ids_at-tail :
      (a : ℕ) (x : FeedItem) (xs : List FeedItem)
      → includes a (ids_at k xs) ≡ true
      → includes a (ids_at k (x ∷ xs)) ≡ true
  includes-ids_at-tail a x xs h = ground arith

  pub includes-ids_at-count :
      (a : ℕ) (xs : List FeedItem)
      → includes a (ids_at k xs) ≡ true
      → 0 < count (both (has_id a) (at k)) xs
  includes-ids_at-count a [] h = cc
  includes-ids_at-count a (x ∷ xs) h = ground (arith, includes-ids_at-count a xs)

  -- Items of the time k have their ids in any list that has those of the time k.
  pub count-not_seen :
      (seen : List ℕ) (xs : List FeedItem)
      → ((a : ℕ) → includes a (ids_at k xs) ≡ true → includes a seen ≡ true)
      → count (λ x. at k x && not (includes x.id seen)) xs ≡ 0
  count-not_seen seen [] h = refl
  count-not_seen seen (x ∷ xs) h =
      ground (arith, h x.id, count-not_seen seen xs (λ a e. h a (includes-ids_at-tail a x xs e)))

pub includes-ids_at-last :
    (xs : List FeedItem) (l : FeedItem)
    → last_item xs ≡ some l
    → includes l.id (ids_at l.created_at xs) ≡ true
includes-ids_at-last [] l e = cc
includes-ids_at-last (x ∷ []) l e = ground arith
includes-ids_at-last (x ∷ y ∷ xs) l e =
    includes-ids_at-tail l.created_at l.id x (y ∷ xs) (includes-ids_at-last (y ∷ xs) l e)

-- The ids that the next cursor excludes: those of the page's last time, and those carried on.
pub includes-seen_after :
    (a : ℕ) (cursor : Option LatestCursor) (k : ℕ) (xs : List FeedItem)
    → includes a (seen_after cursor k xs)
      ≡ (includes a (carried cursor k) || includes a (ids_at k xs))
includes-seen_after a none k xs = refl
includes-seen_after a (some c) k xs = ground (
  arith,
  includes-dedup a (c.seen_ids ++ ids_at k xs),
  includes-append a c.seen_ids (ids_at k xs),
)

module _ (date_of : Number → ℕ) (wholes : (n : ℕ) → date_of (whole n) ≡ n) where
  is_whole-date_of : (n : Number) (k : ℕ) → is_whole n k ≡ true → date_of n ≡ k
  is_whole-date_of (whole m) k h = ground (arith, wholes m)
  is_whole-date_of (other f g i) k h = cc

  pub passes-at-newer :
      (k : ℕ) (ids : List ℕ) (x : FeedItem)
      → passes date_of (cursor_at k ids) x ≡ true
      → newer k x ≡ false
  unfolding passes
  passes-at-newer k [] x h = ground (arith, wholes k)
  passes-at-newer k (i ∷ ids) x h = ground (arith, wholes k)

  is_whole-at :
      (n : Number) (k : ℕ) → is_whole n (date_of n) ≡ true → date_of n ≡ k → is_whole n k ≡ true
  is_whole-at n k h e = subst (λ m. is_whole n m ≡ true) e h

  module _ (t : Number) (k : ℕ) (x : FeedItem) where
    abbrev before : List ℕ → Option LatestCursor
    before seen = some (record { ts = t; seen_ids = seen })

    -- What the next cursor passes, the last one did, if the last item of the page passed it.
    pub passes-at-before :
        (seen ids : List ℕ) (l : FeedItem)
        → (includes x.id (carried (before seen) k) ≡ true → includes x.id ids ≡ true)
        → IsIssued date_of (before seen)
        → passes date_of (before seen) l ≡ true
        → l.created_at ≡ k
        → passes date_of (cursor_at k ids) x ≡ true
        → passes date_of (before seen) x ≡ true
    unfolding passes
    passes-at-before [] [] l sub issued pl e h = ground (arith, wholes k)
    passes-at-before [] (i ∷ ids) l sub issued pl e h = ground (arith, wholes k)
    passes-at-before (j ∷ seen) [] l sub issued pl e h = ground (arith, wholes k)
    passes-at-before (j ∷ seen) (i ∷ ids) l sub issued pl e h =
        ground (arith, wholes k, is_whole-at t k issued)

    -- An item of the time k that passes the cursor has none of the ids that are carried on.
    pub carried-passes :
        (seen : List ℕ)
        → passes date_of (before seen) x ≡ true
        → x.created_at ≡ k
        → includes x.id (carried (before seen) k) ≡ false
    unfolding passes
    carried-passes [] px e = ground arith
    carried-passes (j ∷ seen) px e = ground (arith, is_whole-date_of t k)

  -- An item of the time k that the next cursor keeps out has one of its ids.
  pub passes-at-includes :
      (k a : ℕ) (ids : List ℕ) (x : FeedItem)
      → includes a ids ≡ true
      → passes date_of (cursor_at k ids) x ≡ false
      → newer k x ≡ false
      → (x.created_at ≡ k) × (includes x.id ids ≡ true)
  unfolding passes
  passes-at-includes k a [] x some_id h n = cc
  passes-at-includes k a (i ∷ ids) x some_id h n =
      (ground (arith, wholes k), ground (arith, wholes k))

  pub passes-at-seen :
      (k : ℕ) (ids : List ℕ) (x : FeedItem)
      → passes date_of (cursor_at k ids) x ≡ true
      → older k x ≡ false
      → (at k x && not (includes x.id ids)) ≡ true
  unfolding passes
  passes-at-seen k [] x h n = ground (arith, wholes k)
  passes-at-seen k (i ∷ ids) x h n = ground (arith, wholes k)
