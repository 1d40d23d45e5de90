-- ===== src/Feed.antt =====
-- src/feed: the home feed, a keyset-paginated union of posts, token creations and trades.
pub mod Cursor
pub mod Latest
mod Tests
