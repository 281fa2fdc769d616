-- ===== src/Sdk.antt =====
-- business/sdk: paging and ordering of queries.
pub mod Page
pub mod Order
pub mod Sqldb
pub mod Status
pub mod Opening
pub mod Queries
pub mod Tran
