-- ===== src/Tests.antt =====
-- Concrete inputs, and the properties at these inputs.
mod Instances
mod OtaAgent
mod CommandHandler
mod Decoding
mod Queues
mod Telemetry
mod OfflineBuffer
mod Loading
mod Main
mod Downlink
mod Uplink
