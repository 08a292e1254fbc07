-- ===== src/Search.antt =====
-- app/services/search: queries, safe search, and failover between backends.
pub mod Base
pub mod Router
