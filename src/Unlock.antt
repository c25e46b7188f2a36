-- ===== src/Unlock.antt =====
-- ds-unlock/src/main.rs, the pre-boot unlock manager.
pub mod State
pub mod Prompts
pub mod Loop
pub mod Start
pub mod Wipes
