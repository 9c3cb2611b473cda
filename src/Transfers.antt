-- ===== src/Transfers.antt =====
-- Token transfers and token accounts of a block:
-- consumer/internal/logic/sol/block/price.go. The children hold the data, the decoding of a
-- transfer, the SOL price that a chain of transfers gives, the average of the prices, the map of
-- token accounts, and the price of a block.
pub mod Types
pub mod Decode
pub mod Price
pub mod Average
pub mod Accounts
pub mod BlockPrice
