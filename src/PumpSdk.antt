-- ===== src/PumpSdk.antt =====
-- The client of the PumpFun program: pkg/pumpfun/pump. The children hold the node and the derived
-- addresses, the bonding curve, the creator of a token, the instructions, and the building of a buy
-- and a sell.
pub mod Node
pub mod Curve
pub mod Creator
pub mod Layout
pub mod Swap
