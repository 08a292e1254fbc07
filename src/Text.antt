-- ===== src/Text.antt =====
-- app/services/text: bounding text on its way to a model.
pub mod Truncate
