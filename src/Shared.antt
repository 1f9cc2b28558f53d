-- ===== src/Shared.antt =====
-- The library that every daemon links: shared/.
pub mod ByteBuffer
pub mod Time
pub mod Rendezvous
pub mod NccpString
pub mod OnlTypes
pub mod Params
pub mod SwitchTypes
pub mod Message
pub mod Dispatcher
pub mod OnlRequests
pub mod SwitchRequests
pub mod Connection
pub mod RoundTrip
pub mod Examples
