-- ===== src/Executor.antt =====
-- Signing and broadcasting a mint for every wallet (mint-sniper/src/executor.rs). A provider is the URL
-- that it was built from. `Fees` has the fee arithmetic, `Warm` the connections, `Prepare` the
-- signing, `Fire` the broadcast, and
-- `Report` its results.
pub mod Fees
pub mod Warm
pub mod Prepare
pub mod Fire
pub mod Report
