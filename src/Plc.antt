-- ===== src/Plc.antt =====
-- internal/plugins/plc: the Beckhoff PLC plugin.
pub mod Journal
pub mod Command
pub mod Mapping
