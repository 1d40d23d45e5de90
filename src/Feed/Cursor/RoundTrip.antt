-- ===== src/Feed/Cursor/RoundTrip.antt =====
-- A cursor that is encoded and decoded.
use superhero_api.Base.{
  ℕ, Bool, true, false, not, ◌&&◌, Option, none, some, List, [], ◌∷◌, ◌≡◌, refl, arith, or_else,
  if◌then◌else◌,
}
use superhero_api.Feed.Cursor.{
  FeedSort, latest, hot, is_finite, is_negative, Json, FeedCursor, latest_cursor, hot_cursor,
  invalid_cursor_for, Result, ok, err, texts, to_json, encode_feed_cursor, all_texts, decode_json,
  found, decode_feed_cursor,
}

abbrev pub sort_of : FeedCursor → FeedSort
sort_of (latest_cursor t ids) = latest
sort_of (hot_cursor n) = hot

-- A missing list of ids is decoded as the empty one.
abbrev pub filled : FeedCursor → FeedCursor
filled (latest_cursor t ids) = latest_cursor t (some (or_else ids []))
filled (hot_cursor n) = hot_cursor n

abbrev pub HasNumber : FeedCursor → Type 0
HasNumber (latest_cursor t ids) = is_finite t ≡ true
HasNumber (hot_cursor n) = (is_finite n && not (is_negative n)) ≡ true

abbrev pub sort_eq : FeedSort → FeedSort → Bool
sort_eq latest latest = true
sort_eq hot hot = true
sort_eq _ _ = false

-- A cursor is taken for the sort that it was made for, and refused for another.
abbrev pub answer : FeedCursor → FeedSort → Result (Option FeedCursor)
answer c s = if sort_eq (sort_of c) s then ok (some (filled c)) else err (invalid_cursor_for s)

all_texts-texts : (ids : List ℕ) → all_texts (texts ids) ≡ some ids
all_texts-texts [] = refl
all_texts-texts (a ∷ ids) = rw (all_texts-texts ids)

decode_json-to_json :
    (c : FeedCursor) (s : FeedSort)
    → HasNumber c
    → found (decode_json s (some (to_json c))) ≡ answer c s
unfolding to_json
decode_json-to_json (latest_cursor t none) latest h = ground arith
decode_json-to_json (latest_cursor t (some ids)) latest h = ground (arith, all_texts-texts ids)
decode_json-to_json (latest_cursor t none) hot h = refl
decode_json-to_json (latest_cursor t (some ids)) hot h = refl
decode_json-to_json (hot_cursor n) latest h = refl
decode_json-to_json (hot_cursor n) hot h = ground arith

-- Where the library parses what it has printed of a cursor, and prints no empty text, a cursor with a
-- finite time, or with a finite offset that is not negative, is decoded as it was encoded, with the
-- empty list for missing ids, if its sort is the one asked for, and else refused with that sort.
pub decode_feed_cursor-encode :
    {T : Type 0} (is_empty : T → Bool) (parse : T → Option Json) (print : Json → T) (c : FeedCursor)
    (s : FeedSort)
    → ((d : FeedCursor) → HasNumber d → parse (print (to_json d)) ≡ some (to_json d))
    → ((d : FeedCursor) → is_empty (print (to_json d)) ≡ false)
    → HasNumber c
    → decode_feed_cursor is_empty parse (some (encode_feed_cursor print c)) s ≡ answer c s
unfolding decode_feed_cursor encode_feed_cursor
decode_feed_cursor-encode is_empty parse print c s parses prints h =
    rw (prints c, parses c h) (decode_json-to_json c s h)
