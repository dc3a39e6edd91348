-- ===== src/Tests.antt =====
-- Runs of the definitions, and the theorems at concrete inputs.
mod Broker
mod Rows
mod Server
mod Fetch
mod Manager
mod Worker
mod Service
mod Queue
mod Lookup
mod Log
mod Pages
mod Logs
mod Api
mod Cmd
