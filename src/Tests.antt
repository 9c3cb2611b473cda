-- ===== src/Tests.antt =====
-- Runs of the code at concrete inputs, and the theorems at them.
pub mod Concrete
mod OrderTests
mod PairTests
mod TransferTests
mod BlockTests
mod SolanaTests
mod SlotTests
mod TokenTests
mod PumpSdkTests
mod MarketTests
mod UnsignedTests
mod PoolTests
mod PositionTests
mod LiquidityTests
