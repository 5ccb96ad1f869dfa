-- ===== src/Tests.antt =====
-- Runs of the code at concrete inputs, and the theorems at inputs that meet their hypotheses.
mod Clients
mod Documents
mod Traces
mod Asked
mod Overlays
mod Connections
mod Histories
mod Messages
mod Options
mod Routers
mod Parsers
mod Requests
mod Senders
mod Table
mod Threads
