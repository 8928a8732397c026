-- ===== src/Ledger/Transaction.antt =====
-- chaincode/transaction/chaincode/contract.go: the transaction and approval contract.
-- `Contract` has its data and operations, which the other children prove facts about.
pub mod Status
pub mod Contract
pub use Status.*
unfoldable pub use Contract.*
