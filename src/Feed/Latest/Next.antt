-- ===== src/Feed/Latest/Next.antt =====
-- What waits after a page: what waited before it and was not served.
use superhero_api.Base.{
  ℕ, ◌+◌, ◌≤◌, ◌<◌, Bool, true, false, not, ◌&&◌, Option, none, some, List, [], ◌∷◌, ◌≡◌, refl,
  subst, arith, ◌==◌, includes, All, Bool-cases, inl, inr,
}
use superhero_api.Base.Count.{
  count, count-select, count_mono, count_split, count_zero, count_ext, All-count,
}
use superhero_api.Feed.Cursor.{Number, whole}
use superhero_api.Feed.Latest.{
  FeedItem, Tables, LatestCursor, passes, carried, ids_at, seen_after, last_item,
}
use superhero_api.Feed.Latest.Query.{Orders, newer, older, count-older_last}
use superhero_api.Feed.Latest.Fetched.{pool, both, and_right}
use superhero_api.Feed.Latest.Filter.{
  has_id, at, IsIssued, cursor_at, includes-ids_at-count, count-not_seen, includes-ids_at-last,
  includes-seen_after, passes-at-before, carried-passes, passes-at-includes, passes-at-seen,
}
use superhero_api.Feed.Latest.Step.{
  served, waiting, count-served-le, count-waiting_newer, served-IsDesc,
}

All-last_item :
    (P : FeedItem → Type 0) (xs : List FeedItem) (l : FeedItem)
    → All P xs
    → last_item xs ≡ some l
    → P l
All-last_item P [] l h e = cc
All-last_item P (x ∷ []) l (h, _) e = subst P (cc e) h
All-last_item P (x ∷ y ∷ xs) l (_, hs) e = All-last_item P (y ∷ xs) l hs e

last_item-count :
    (xs : List FeedItem) (l : FeedItem) → last_item xs ≡ some l → 0 < count (λ x. true) xs
last_item-count [] l e = cc
last_item-count (x ∷ xs) l e = omega arith

and_not : (b : Bool) → (b && not b) ≡ false
and_not true = refl
and_not false = refl

module _ (date_of : Number → ℕ) (wholes : (n : ℕ) → date_of (whole n) ≡ n) (k : ℕ) where
  passes-at-cursor :
      (cursor : Option LatestCursor) (ids : List ℕ) (l x : FeedItem)
      → (includes x.id (carried cursor k) ≡ true → includes x.id ids ≡ true)
      → IsIssued date_of cursor
      → passes date_of cursor l ≡ true
      → l.created_at ≡ k
      → passes date_of (cursor_at k ids) x ≡ true
      → passes date_of cursor x ≡ true
  unfolding passes
  passes-at-cursor none ids l x sub issued pl e h = refl
  passes-at-cursor (some c) ids l x sub issued pl e h =
      passes-at-before date_of wholes c.ts k x c.seen_ids ids l sub issued pl e h

  carried-cursor :
      (cursor : Option LatestCursor) (x : FeedItem)
      → passes date_of cursor x ≡ true
      → x.created_at ≡ k
      → includes x.id (carried cursor k) ≡ false
  carried-cursor none x px e = refl
  carried-cursor (some c) x px e = carried-passes date_of wholes c.ts k x c.seen_ids px e

module _ {order : List FeedItem → List FeedItem} (o : Orders order) (date_of : Number → ℕ)
    (wholes : (n : ℕ) → date_of (whole n) ≡ n) (cursor : Option LatestCursor) (limit : ℕ)
    (t : Tables) (issued : IsIssued date_of cursor) where
  abbrev page_items : List FeedItem
  page_items = served o date_of cursor limit t

  abbrev p : FeedItem → Bool
  p = passes date_of cursor

  -- Every item that is served passed the cursor.
  pub served-All : All (λ x. passes date_of cursor x ≡ true) page_items
  served-All = All-count p page_items (
      omega (
        arith,
        count-served-le o date_of cursor limit t (λ x. not (p x)),
        count-select (λ x. not (p x)) p (pool t),
        count_zero (both p (λ x. not (p x))) (λ x. and_not (p x)) (pool t),
      ))

  module _ (l : FeedItem) (e : last_item page_items ≡ some l) where
    abbrev pub seen : List ℕ
    seen = seen_after cursor l.created_at page_items

    abbrev q : FeedItem → Bool
    q = passes date_of (cursor_at l.created_at seen)

    includes-seen-last : includes l.id seen ≡ true
    includes-seen-last = ground (
      arith,
      includes-seen_after l.id cursor l.created_at page_items,
      includes-ids_at-last page_items l e,
    )

    pub passes-next-passes : (x : FeedItem) → q x ≡ true → p x ≡ true
    passes-next-passes x h =
        passes-at-cursor date_of wholes l.created_at cursor seen l x
          (λ c. ground (arith, includes-seen_after x.id cursor l.created_at page_items)) issued
          (All-last_item (λ y. p y ≡ true) page_items l served-All e) refl h

    -- Nothing that is served passes the next cursor.
    count-served_next : (r : FeedItem → Bool) → count (both r q) page_items ≡ 0
    count-served_next r = omega (
      arith,
      count_split (both r q) (older l.created_at) page_items,
      count_mono (both (both r q) (older l.created_at)) (older l.created_at)
          (λ x. and_right (both r q x) (older l.created_at x)) page_items,
      count-older_last page_items l (served-IsDesc o date_of cursor limit t) e,
      count_mono (both (both r q) (λ x. not (older l.created_at x)))
          (λ x. at l.created_at x && not (includes x.id seen))
          (λ x h. passes-at-seen date_of wholes l.created_at seen x (ground arith) (ground arith))
          page_items,
      count-not_seen l.created_at seen page_items
          (λ a h. ground (arith, includes-seen_after a cursor l.created_at page_items)),
    )

    -- What waits no more, and is not newer than the page's last item, is on the page by its id.
    dropped-includes :
        (a : ℕ) (x : FeedItem)
        → both (both (both p (has_id a)) (λ x. not (q x))) (λ x. not (newer l.created_at x)) x
          ≡ true
        → both (λ x. includes a (ids_at l.created_at page_items)) (has_id a) x ≡ true
    dropped-includes a x h =
        let hp : p x ≡ true = ground arith in
        let same : x.id ≡ a = ground arith in
        let (time, id) =
          passes-at-includes date_of wholes l.created_at l.id seen x includes-seen-last
            (ground arith) (ground arith) in
        let on_page : includes x.id (ids_at l.created_at page_items) ≡ true = ground (
          arith,
          includes-seen_after x.id cursor l.created_at page_items,
          carried-cursor date_of wholes l.created_at cursor x hp time,
        ) in
        subst (λ z. (includes z (ids_at l.created_at page_items) && x.id == z) ≡ true) same
          (ground (arith, on_page))

    -- All that waited and waits no more, by its id.
    abbrev dropped : ℕ → FeedItem → Bool
    dropped a = both (both p (has_id a)) (λ x. not (q x))

    count-dropped-newer :
        (a : ℕ)
        → count (both (dropped a) (newer l.created_at)) (pool t)
          ≤ count (both (has_id a) (newer l.created_at)) page_items
    count-dropped-newer a = omega (
      arith,
      count_mono (both (dropped a) (newer l.created_at))
          (λ x. p x && both (has_id a) (newer l.created_at) x) (λ x h. ground arith) (pool t),
      count-select (both (has_id a) (newer l.created_at)) p (pool t),
      count-waiting_newer o date_of cursor limit t l e (has_id a),
    )

    module _ (unique : (a : ℕ) → count (has_id a) (pool t) ≤ 1) where
      count-dropped_last :
          (a : ℕ)
          → count (both (dropped a) (λ x. not (newer l.created_at x))) (pool t)
            ≤ count (both (has_id a) (at l.created_at)) page_items
      count-dropped_last a = elim (Bool-cases (includes a (ids_at l.created_at page_items))) [
        | inl on_page ↦ omega (
          arith,
          unique a,
          count_mono (both (dropped a) (λ x. not (newer l.created_at x))) (has_id a)
              (λ x h. ground arith) (pool t),
          includes-ids_at-count l.created_at a page_items on_page,
        )
        | inr off ↦ omega (
          arith,
          count_mono (both (dropped a) (λ x. not (newer l.created_at x)))
              (λ x. includes a (ids_at l.created_at page_items) && has_id a x) (dropped-includes a)
              (pool t),
          count_zero (λ x. includes a (ids_at l.created_at page_items) && has_id a x) (λ x. rw off)
              (pool t),
        )
      ]

      count-dropped : (a : ℕ) → count (dropped a) (pool t) ≡ count (has_id a) page_items
      count-dropped a = omega (
        arith,
        count_split (dropped a) (newer l.created_at) (pool t),
        count-dropped-newer a,
        count-dropped_last a,
        count_split (has_id a) (newer l.created_at) page_items,
        count_mono (both (has_id a) (at l.created_at))
            (both (has_id a) (λ x. not (newer l.created_at x))) (λ x h. ground arith) page_items,
        count_split (has_id a) q page_items,
        count-served_next (has_id a),
        count-served-le o date_of cursor limit t (both (has_id a) (λ x. not (q x))),
        count-select (both (has_id a) (λ x. not (q x))) p (pool t),
        count_mono (λ x. p x && both (has_id a) (λ x. not (q x)) x) (dropped a)
            (λ x h. ground arith) (pool t),
      )

      -- Of each id, what waits is served now or waits after the page.
      pub count-waiting_next :
          (a : ℕ)
          → count (has_id a) (waiting o date_of cursor limit t)
            ≡ count (has_id a) page_items
              + count (has_id a) (waiting o date_of (cursor_at l.created_at seen) limit t)
      count-waiting_next a = omega (
        arith,
        count-select (has_id a) p (pool t),
        count-select (has_id a) q (pool t),
        count_split (both p (has_id a)) q (pool t),
        count-dropped a,
        count_ext (both (both p (has_id a)) q) (both q (has_id a))
            (λ x. ground (arith, passes-next-passes x)) (pool t),
      )

    -- The page serves something, so fewer wait.
    pub count-passes_next : count q (pool t) < count p (pool t)
    count-passes_next = omega (
      arith,
      count_split p q (pool t),
      count_ext (both p q) q (λ x. ground (arith, passes-next-passes x)) (pool t),
      count-served-le o date_of cursor limit t (λ x. not (q x)),
      count-select (λ x. not (q x)) p (pool t),
      count_split (λ x. true) q page_items,
      count-served_next (λ x. true),
      last_item-count page_items l e,
    )
