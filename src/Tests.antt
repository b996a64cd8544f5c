-- ===== src/Tests.antt =====
-- Runs of the definitions on concrete inputs, and the theorems at concrete arguments.
mod Sockets
mod Alerts
mod Sessions
mod Licences
mod Clients
mod Workers
mod Handoffs
mod Transport
mod Packs
mod Playing
mod Installs
mod Requests
