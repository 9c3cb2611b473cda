-- ===== src/Market.antt =====
-- The market service: market/internal/logic, with the queries of model/solmodel that it passes on.
pub mod Lookup
pub mod Service
