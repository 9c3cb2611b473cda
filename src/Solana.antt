-- ===== src/Solana.antt =====
-- Swaps on Solana: trade/internal/chain/solana/{txManager,pump,gas,jito}.go. The children hold the
-- data, the fees, the instructions of a swap for each kind of pool, the choice of the pool with the
-- sending, the unsigned transaction, the creation of a pool, and the ticks, the positions and the
-- liquidity of pools.
pub mod Types
pub mod Gas
pub mod Dex
pub mod PumpFun
pub mod Send
pub mod Unsigned
pub mod Pools
pub mod Ticks
pub mod Positions
pub mod Liquidity
