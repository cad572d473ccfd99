-- ===== src/Witness.antt =====
-- The results at concrete inputs.
mod Mqttc
mod Logs
mod Browser
mod Recording
mod Access
mod Control
mod Namespace
mod Payloads
mod Plugins
mod Requests
