-- ===== src/Feed/Latest/Descending.antt =====
-- Lists of items that are ordered by time, newest first.
use superhero_api.Base.{
  ℕ, ◌≤◌, Bool, true, false, ◌&&◌, none, List, [], ◌∷◌, ◌++◌, ◌≡◌, refl, arith, All, All-append,
}
use superhero_api.Base.Count.{count}
use superhero_api.Feed.Cursor.{Number, whole}
use superhero_api.Feed.Latest.{FeedItem, passes, last_item}
use superhero_api.Feed.Latest.Query.{IsDesc, NotNewer, older}
use superhero_api.Feed.Latest.Filter.{cursor_at, passes-at-newer}

pub last_item-none : (xs : List FeedItem) → last_item xs ≡ none → xs ≡ []
last_item-none [] e = refl
last_item-none (x ∷ []) e = cc
last_item-none (x ∷ y ∷ xs) e = absurd (cc (last_item-none (y ∷ xs) e))

pub All-mono :
    {p q : FeedItem → Bool}
    → ((x : FeedItem) → q x ≡ true → p x ≡ true)
    → (xs : List FeedItem) → All (λ x. q x ≡ true) xs
    → All (λ x. p x ≡ true) xs
All-mono f [] h = tt
All-mono f (x ∷ xs) (h, hs) = (f x h, All-mono f xs hs)

pub All-NotNewer :
    (date_of : Number → ℕ) (wholes : (n : ℕ) → date_of (whole n) ≡ n) (k : ℕ) (ids : List ℕ)
    (xs : List FeedItem)
    → All (λ x. passes date_of (cursor_at k ids) x ≡ true) xs
    → NotNewer k xs
All-NotNewer date_of wholes k ids [] h = tt
All-NotNewer date_of wholes k ids (x ∷ xs) (h, hs) = (
  ground (arith, passes-at-newer date_of wholes k ids x h),
  All-NotNewer date_of wholes k ids xs hs,
)

NotNewer-below :
    (k : ℕ) (x : FeedItem) (ys : List FeedItem)
    → older k x ≡ false
    → NotNewer k ys
    → NotNewer x.created_at ys
NotNewer-below k x [] h ys = tt
NotNewer-below k x (y ∷ ys) h (le, rest) = (ground arith, NotNewer-below k x ys h rest)

-- A list that ends at k, and one that begins there.
pub append-IsDesc :
    (k : ℕ) (xs ys : List FeedItem)
    → IsDesc xs
    → IsDesc ys
    → count (older k) xs ≡ 0
    → NotNewer k ys
    → IsDesc (xs ++ ys)
append-IsDesc k [] ys hx hy none_older le = hy
append-IsDesc k (x ∷ xs) ys (h, hs) hy none_older le = (
  All-append (λ y. y.created_at ≤ x.created_at) xs ys h (NotNewer-below k x ys (ground arith) le),
  append-IsDesc k xs ys hs hy (ground arith) le,
)

pub first_page :
    (date_of : Number → ℕ) (r : FeedItem → Bool) (x : FeedItem)
    → (passes date_of none x && r x) ≡ r x
unfolding passes
first_page date_of r x = refl
