-- ===== src/Erase.antt =====
-- ds-erase/src/main.rs, the erase actor.
pub mod Journal
pub mod Arguments
pub mod Headers
pub mod World
pub mod Transaction
pub mod Host
pub mod Commands
