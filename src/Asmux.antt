-- ===== src/Asmux.antt =====
-- crates/asmux: the process that holds the sessions.
pub mod Ring
pub mod Frame
pub mod Session
pub mod Registry
pub mod Wire
pub mod Server
pub mod Attachment
pub mod Stream
pub mod Ordinals
pub mod Dispatch
mod Samples
