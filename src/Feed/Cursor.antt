-- ===== src/Feed/Cursor.antt =====
-- src/feed/feed-cursor.util.ts. A text is a number, `latest` and `hot` are those below. JSON and
-- base64url are a library's: the texts that it prints are a type `T`, and `parse` and `print` are
-- parameters. A number of JSON that is not a natural one is given by what the code asks of it.
pub mod RoundTrip
use superhero_api.Base.{
  ℕ, Bool, true, false, not, ◌&&◌, Option, none, some, List, [], ◌∷◌, ◌==◌, if◌then◌else◌,
}

pub data FeedSort : Type 0 where
  latest hot : FeedSort

abbrev pub sort_name : FeedSort → ℕ
sort_name latest = 1
sort_name hot = 2

pub data Number : Type 0 where
  whole : ℕ → Number
  other : (finite negative : Bool) (which : ℕ) → Number

abbrev pub is_finite : Number → Bool
is_finite (whole n) = true
is_finite (other finite negative which) = finite

abbrev pub is_negative : Number → Bool
is_negative (whole n) = false
is_negative (other finite negative which) = negative

-- The names of the fields that the code reads, and the rest.
pub data Field : Type 0 where
  sort ts seen_ids offset : Field
  extra : ℕ → Field

mutual
  pub data Json : Type 0 where
    null : Json
    boolean : Bool → Json
    number : Number → Json
    text : ℕ → Json
    array : Items → Json
    object : Fields → Json

  pub data Items : Type 0 where
    nil : Items
    cons : Json → Items → Items

  pub data Fields : Type 0 where
    end : Fields
    field : Field → Json → Fields → Fields

abbrev pub field_eq : Field → Field → Bool
field_eq sort sort = true
field_eq ts ts = true
field_eq seen_ids seen_ids = true
field_eq offset offset = true
field_eq (extra a) (extra b) = a == b
field_eq _ _ = false

abbrev pub get_field : Field → Fields → Option Json
get_field f end = none
get_field f (field g v rest) = if field_eq g f then some v else get_field f rest

pub data FeedCursor : Type 0 where
  latest_cursor : (ts : Number) (seen_ids : Option (List ℕ)) → FeedCursor
  hot_cursor : (offset : Number) → FeedCursor

pub data BadRequest : Type 0 where
  invalid_cursor : BadRequest
  invalid_cursor_for : FeedSort → BadRequest

pub data Result (A : Type 0) : Type 0 where
  ok : A → Result A
  err : BadRequest → Result A

abbrev pub texts : List ℕ → Items
texts [] = nil
texts (a ∷ xs) = cons (text a) (texts xs)

abbrev pub seen_fields : Option (List ℕ) → Fields
seen_fields none = end
seen_fields (some ids) = field seen_ids (array (texts ids)) end

-- What JSON.stringify sees: a field that is undefined is left out.
unfoldable pub to_json : FeedCursor → Json
to_json (latest_cursor t ids) =
    object (field sort (text (sort_name latest)) (field ts (number t) (seen_fields ids)))
to_json (hot_cursor n) = object (field sort (text (sort_name hot)) (field offset (number n) end))

unfoldable pub encode_feed_cursor : {T : Type 0} → (Json → T) → FeedCursor → T
unfolding to_json
encode_feed_cursor print c = print (to_json c)

-- `every((id) => typeof id === 'string')`, with the texts.
abbrev pub push_text : ℕ → Option (List ℕ) → Option (List ℕ)
push_text a none = none
push_text a (some xs) = some (a ∷ xs)

abbrev pub all_texts : Items → Option (List ℕ)
all_texts nil = some []
all_texts (cons (text a) rest) = push_text a (all_texts rest)
all_texts (cons _ rest) = none

abbrev pub seen_of : Option (List ℕ) → Number → Result FeedCursor
seen_of none t = err invalid_cursor
seen_of (some ids) t = ok (latest_cursor t (some ids))

abbrev pub decode_seen : Option Json → Number → Result FeedCursor
decode_seen none t = ok (latest_cursor t (some []))
decode_seen (some (array items)) t = seen_of (all_texts items) t
decode_seen (some _) t = err invalid_cursor

abbrev pub decode_latest : Option Json → Option Json → Result FeedCursor
decode_latest (some (number t)) seen =
    if not (is_finite t) then err invalid_cursor else decode_seen seen t
decode_latest _ seen = err invalid_cursor

abbrev pub decode_hot : Option Json → Result FeedCursor
decode_hot (some (number n)) =
    if not (is_finite n && not (is_negative n)) then err invalid_cursor else ok (hot_cursor n)
decode_hot _ = err invalid_cursor

abbrev pub decode_fields : FeedSort → Fields → Result FeedCursor
decode_fields latest o = decode_latest (get_field ts o) (get_field seen_ids o)
decode_fields hot o = decode_hot (get_field offset o)

abbrev pub has_sort : FeedSort → Option Json → Bool
has_sort s (some (text name)) = name == sort_name s
has_sort s _ = false

-- The checks of the parsed value, in the source's order. An array has no such fields.
abbrev pub decode_json : FeedSort → Option Json → Result FeedCursor
decode_json s none = err invalid_cursor
decode_json s (some (object o)) =
    if has_sort s (get_field sort o) then decode_fields s o else err (invalid_cursor_for s)
decode_json s (some _) = err (invalid_cursor_for s)

abbrev pub found : Result FeedCursor → Result (Option FeedCursor)
found (ok c) = ok (some c)
found (err e) = err e

-- decodeFeedCursor. `parse` gives `none` where it throws; a missing cursor is `none`.
unfoldable pub decode_feed_cursor :
    {T : Type 0} → (T → Bool) → (T → Option Json) → Option T → FeedSort → Result (Option FeedCursor)
decode_feed_cursor is_empty parse none s = ok none
decode_feed_cursor is_empty parse (some t) s =
    if is_empty t then ok none else found (decode_json s (parse t))
