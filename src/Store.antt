-- ===== src/Store.antt =====
-- ttd/server/internal/store: the persistence types of store.go and the in-memory store of memory.go.
-- Every method of the store holds its one mutex from start to end, so a method is a function from
-- the store to the store. The clock and the random ids are arguments.
pub mod Dict
pub mod Types
pub mod Accounts
pub mod Records
pub mod Selection
pub mod Log
