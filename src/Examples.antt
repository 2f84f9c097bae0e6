-- ===== src/Examples.antt =====
-- Concrete inputs, tests and the instances of the theorems.
pub mod Net
mod Forwarding
mod Errors
mod Cache
pub mod Table
mod Play
mod Duel
mod Rooms
mod Lost
pub mod Messages
mod Connection
pub mod Login
mod Session
mod Printing
mod Logging
