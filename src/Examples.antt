-- ===== src/Examples.antt =====
-- A small world in which the theorems are applied: one node, one wallet, a `seadrop` configuration.
mod Signins
pub mod World
mod Loops
mod Fires
mod Codec
mod Copies
mod Settings
mod Dates
mod Accounts
mod Delegates
mod Slugs
mod Start
mod Requests
