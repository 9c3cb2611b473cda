-- ===== src/Order.antt =====
-- Market orders: trade/internal/logic/createmarketorderlogic.go with the order tables of
-- model/trademodel. The children hold the data and the tables' interface, the code in the order in
-- which it runs (parameters, retry loop, status update, the whole request), and the proofs.
pub mod Types
pub mod Store
pub mod Params
pub mod Retry
pub mod Status
pub mod Flow
