-- ===== src/Tokens.antt =====
-- Token records of the consumer: consumer/internal/logic/sol/block/token.go over
-- model/solmodel/tokenmodel_gen.go. The children hold the data with the interfaces of the node, the
-- web and the table, the addresses of metadata, what the node and the web say of a token, the
-- saving of a token, and the proofs.
pub mod Types
pub mod Uri
pub mod Info
pub mod Save
