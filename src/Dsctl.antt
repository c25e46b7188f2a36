-- ===== src/Dsctl.antt =====
-- dsctl/src/main.rs: what it changes of the system, and the operations that arm and disarm it.
pub mod Hooks
pub mod System
pub mod PamStack
pub mod Registry
pub mod Machine
pub mod Arm
pub mod Disarm
pub mod Recovery
pub mod Deadman
pub mod Duress
