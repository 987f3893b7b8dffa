-- ===== src/Search.antt =====
-- Tool search: how well a tool fits a query, and the pages of a result.
pub mod Score
pub mod Pages
