-- ===== src/Members.antt =====
-- frontend/src/app/members: the search in the directory, the order of the members, what the page of
-- the members selects, and the source of its members.
pub mod Matching
pub mod Page
pub mod Feed
pub mod Views
mod Tests
