-- ===== src/Tests.antt =====
-- Runs of the code on concrete inputs, in an environment that is written out.
mod Env
mod Buffers
mod Texts
mod Configs
mod Lists
mod Requests
mod Answers
mod Refusals
mod Failures
mod Services
mod Settings
mod Turns
mod Deliveries
mod Logs
mod Connections
