-- ===== src/Fetch.antt =====
-- app/services/urlsafety.py, app/services/fetch and app/services/robots.py: which URLs are fetched,
-- and how.
pub mod UrlSafety
pub mod Http
pub mod Robots
pub mod Page
