-- ===== src/Feed/Latest/Query.antt =====
-- Lists of items, newest first, and their front parts.
use superhero_api.Base.{
  ℕ, zero, suc, ◌≤◌, ◌<◌, Bool, true, false, some, List, [], ◌∷◌, ◌≡◌, refl, arith, ltb, leb,
  if◌then◌else◌, All, All-take, length, take, drop, Bool-cases, inl, inr,
}
use superhero_api.Base.Count.{count, count-take-drop, length-take}
use superhero_api.Feed.Latest.{FeedItem, insert_desc, sort_desc, last_item}

abbrev pub NotNewer : ℕ → List FeedItem → Type 0
NotNewer v = All (λ y. y.created_at ≤ v)

abbrev pub IsDesc : List FeedItem → Type 0
IsDesc [] = Unit {0}
IsDesc (x ∷ xs) = NotNewer x.created_at xs × IsDesc xs

-- An ORDER BY created_at DESC: the same rows, newest first.
pub record Orders (order : List FeedItem → List FeedItem) : Type 0 where
  pub counts : (p : FeedItem → Bool) (xs : List FeedItem) → count p (order xs) ≡ count p xs
  pub desc : (xs : List FeedItem) → IsDesc (order xs)

abbrev pub newer : ℕ → FeedItem → Bool
newer k x = ltb k x.created_at

NotNewer-mono : (v u : ℕ) (xs : List FeedItem) → v ≤ u → NotNewer v xs → NotNewer u xs
NotNewer-mono v u [] le h = tt
NotNewer-mono v u (x ∷ xs) le (h, hs) = (omega arith, NotNewer-mono v u xs le hs)

NotNewer-insert_desc :
    (v : ℕ) (r : FeedItem) (xs : List FeedItem)
    → r.created_at ≤ v
    → NotNewer v xs
    → NotNewer v (insert_desc r xs)
unfolding insert_desc
NotNewer-insert_desc v r [] le h = (le, tt)
NotNewer-insert_desc v r (x ∷ xs) le (h, hs) =
    elim (leb x.created_at r.created_at)
      as (λ b. NotNewer v (if b then r ∷ x ∷ xs else x ∷ insert_desc r xs)) [
        | true ↦ (le, (h, hs))
        | false ↦ (h, NotNewer-insert_desc v r xs le hs)
      ]

insert_desc-IsDesc : (r : FeedItem) (xs : List FeedItem) → IsDesc xs → IsDesc (insert_desc r xs)
unfolding insert_desc
insert_desc-IsDesc r [] h = (tt, tt)
insert_desc-IsDesc r (x ∷ xs) (h, hs) = elim (Bool-cases (leb x.created_at r.created_at)) [
  | inl le ↦
      rw le ((ground arith, NotNewer-mono x.created_at r.created_at xs (ground arith) h), (h, hs))
  | inr gt ↦
      rw gt (NotNewer-insert_desc x.created_at r xs (ground arith) h, insert_desc-IsDesc r xs hs)
]

count-insert_desc :
    (p : FeedItem → Bool) (r : FeedItem) (xs : List FeedItem)
    → count p (insert_desc r xs) ≡ count p (r ∷ xs)
unfolding insert_desc
count-insert_desc p r [] = refl
count-insert_desc p r (x ∷ xs) = ground (arith, count-insert_desc p r xs)

count-sort_desc : (p : FeedItem → Bool) (xs : List FeedItem) → count p (sort_desc xs) ≡ count p xs
unfolding sort_desc
count-sort_desc p [] = refl
count-sort_desc p (x ∷ xs) =
    ground (arith, count-insert_desc p x (sort_desc xs), count-sort_desc p xs)

sort_desc-IsDesc : (xs : List FeedItem) → IsDesc (sort_desc xs)
unfolding sort_desc
sort_desc-IsDesc [] = tt
sort_desc-IsDesc (x ∷ xs) = insert_desc-IsDesc x (sort_desc xs) (sort_desc-IsDesc xs)

-- The source's own sort is such an order.
pub sort_desc-Orders : Orders sort_desc
sort_desc-Orders = record { counts = count-sort_desc; desc = sort_desc-IsDesc }

count-newer : (k v : ℕ) (xs : List FeedItem) → v ≤ k → NotNewer v xs → count (newer k) xs ≡ 0
count-newer k v [] le h = refl
count-newer k v (x ∷ xs) le (h, hs) = ground (arith, count-newer k v xs le hs)

-- If a newer item is left behind, the whole front part is newer.
pub count-newer-take :
    (k n : ℕ) (xs : List FeedItem)
    → IsDesc xs
    → 0 < count (newer k) (drop n xs)
    → count (newer k) (take n xs) ≡ n
count-newer-take k zero xs h some_left = refl
count-newer-take k (suc n) [] h some_left = absurd (omega arith)
count-newer-take k (suc n) (x ∷ xs) (h, hs) some_left = ground (
  arith,
  count-newer-take k n xs hs some_left,
  count-take-drop (newer k) n xs,
  count-newer k x.created_at xs,
)

pub count-newer_last :
    (xs : List FeedItem) (l : FeedItem)
    → last_item xs ≡ some l
    → count (newer l.created_at) xs < length xs
count-newer_last [] l e = cc
count-newer_last (x ∷ []) l e = ground arith
count-newer_last (x ∷ y ∷ xs) l e = ground (arith, count-newer_last (y ∷ xs) l e)

-- Nothing that is left behind is newer than the last item of the front part.
pub count-newer-drop :
    (n : ℕ) (xs : List FeedItem) (l : FeedItem)
    → IsDesc xs
    → last_item (take n xs) ≡ some l
    → count (newer l.created_at) (drop n xs) ≡ 0
count-newer-drop n xs l h e = ground (
  arith,
  count-newer-take l.created_at n xs h,
  count-newer_last (take n xs) l e,
  length-take n xs,
)

abbrev pub older : ℕ → FeedItem → Bool
older k x = ltb x.created_at k

-- No item of a list is older than its last one.
pub count-older_last :
    (xs : List FeedItem) (l : FeedItem)
    → IsDesc xs
    → last_item xs ≡ some l
    → count (older l.created_at) xs ≡ 0
count-older_last [] l h e = cc
count-older_last (x ∷ []) l h e = ground arith
count-older_last (x ∷ y ∷ xs) l ((le, _), hs) e = ground (arith, count-older_last (y ∷ xs) l hs e)

pub take-IsDesc : (n : ℕ) (xs : List FeedItem) → IsDesc xs → IsDesc (take n xs)
take-IsDesc zero xs h = tt
take-IsDesc (suc n) [] h = tt
take-IsDesc (suc n) (x ∷ xs) (h, hs) =
    (All-take (λ y. y.created_at ≤ x.created_at) n xs h, take-IsDesc n xs hs)
