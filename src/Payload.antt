-- ===== src/Payload.antt =====
-- internal/payload: what kind of thing a payload is, and what a Sparkplug payload says.
pub mod Reader
pub mod Varint
pub mod Progress
pub mod Fields
pub mod Sparkplug
pub mod Detect
