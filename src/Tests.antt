-- ===== src/Tests.antt =====
-- Concrete inputs at which the theorems on src/ apply.
mod Data
mod Nets
mod Reactors
mod Sending
mod Receiving
mod Offsets
mod Clients
mod Sessions
mod Leaders
mod Fetches
mod Starting
mod Serving
mod Programs
