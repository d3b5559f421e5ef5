-- ===== src/Core/External.antt =====
-- The types of other packages that the program stores and passes on, as parameters:
-- `serde_json::Value`, `chrono::DateTime<Utc>` and `uuid::Uuid`.
pub record External : Type 1 where
  pub Value : Type 0
  pub DateTime : Type 0
  pub Uuid : Type 0
