-- ===== src/Tests.antt =====
-- Runs of the model at concrete inputs, and the theorems at inputs that meet their hypotheses.
mod Calls
mod Recovery
mod Agent
mod Keys
mod AgentConfig
mod Frpc
mod Manager
mod Network
mod Server
mod Ssh
mod Monitor
mod Image
mod Vfio
