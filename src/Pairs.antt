-- ===== src/Pairs.antt =====
-- Trades and the pair table of the consumer: consumer/internal/logic/sol/block/{types,db}.go over
-- model/solmodel/pairmodel_gen.go. The children hold the data and the table's interface, the code,
-- and the proofs.
pub mod Types
pub mod Store
pub mod Save
pub mod Batch
