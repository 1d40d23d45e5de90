-- ===== src/Feed/Tests.antt =====
-- Runs of the feed on small tables.
use superhero_api.Base.{ℕ, suc, true, false, none, some, [], ◌∷◌, ◌≡◌, refl, ◌≤◌, arith, length}
use superhero_api.Base.Count.{count}
use superhero_api.Feed.Cursor.{
  Number, whole, other, Json, latest_cursor, hot, err, invalid_cursor_for, encode_feed_cursor,
  decode_feed_cursor,
}
use superhero_api.Feed.Cursor.RoundTrip.{decode_feed_cursor-encode}
use superhero_api.Feed.Latest.{Tables, buy, create_community, sort_desc, fetch, get_latest_feed}
use superhero_api.Feed.Latest.Query.{IsDesc, sort_desc-Orders}
use superhero_api.Feed.Latest.Fetched.{pool}
use superhero_api.Feed.Latest.Filter.{has_id}
use superhero_api.Feed.Latest.Walk.{walk, walk_complete}

-- Texts that are the values they stand for.
decode_feed_cursor-encode_example :
    decode_feed_cursor
      (λ j. false)
      some
      (some (encode_feed_cursor {T = Json} (λ j. j) (latest_cursor (whole 7) none)))
      hot
    ≡ err (invalid_cursor_for hot)
decode_feed_cursor-encode_example =
    decode_feed_cursor-encode {T = Json} (λ j. false) some (λ j. j) (latest_cursor (whole 7) none)
      hot (λ d h. refl) (λ d. refl) refl

abbrev time : Number → ℕ
time (whole n) = n
time (other finite negative which) = 0

-- Three posts and a token of one time, a hidden post, an older trade, and a creation that is no trade.
abbrev tables : Tables
tables = record {
  posts =
      record { id = 11; created_at = 9; is_hidden = false }
      ∷ record { id = 12; created_at = 9; is_hidden = false }
      ∷ record { id = 13; created_at = 9; is_hidden = true }
      ∷ record { id = 14; created_at = 9; is_hidden = false }
      ∷ [];
  tokens = record { sale_address = 21; created_at = 9; unlisted = false } ∷ [];
  transactions =
      record { tx_hash = 31; sale_address = 21; created_at = 4; tx_type = buy }
      ∷ record { tx_hash = 32; sale_address = 21; created_at = 8; tx_type = create_community }
      ∷ [];
}

unique_ids : (a : ℕ) → count (has_id a) (pool tables) ≤ 1
unique_ids a = ground arith

walk_complete_example :
    ((a : ℕ)
      → count (has_id a) (walk sort_desc time tables 2 (suc (length (pool tables))) none)
        ≡ count (has_id a) (pool tables))
    × IsDesc (walk sort_desc time tables 2 (suc (length (pool tables))) none)
walk_complete_example =
    walk_complete time 2 tables sort_desc-Orders (λ n. refl) (ground arith) unique_ids

walk_ids : length (walk sort_desc time tables 2 6 none) ≡ 5
unfolding walk get_latest_feed fetch sort_desc
walk_ids = refl
