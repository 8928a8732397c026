-- ===== src/Ledger.antt =====
-- The Fabric chaincode of chaincode/: what both contracts use of the chaincode stub, and the two
-- contracts.
pub mod Stub
pub mod Table
pub mod Transaction
pub mod Asset
