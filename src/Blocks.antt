-- ===== src/Blocks.antt =====
-- Blocks: consumer/internal/logic/sol/block/block.go with `GetSolBlockInfo` of price.go and
-- `SaveTrades` of db.go. `none` is a panic.
pub mod Fetch
pub mod Process
pub mod Runs
pub mod Outcome
