-- ===== src/Plugin.antt =====
-- internal/plugin: the host of the compiled-in plugins.
pub mod Runtime
pub mod Dispatch
pub mod Steps
