-- ===== src/Search.antt =====
-- app/application/search.py: `SearchService`.
pub mod Start
pub mod Process
pub mod Worker
mod Tests
mod StartTests
