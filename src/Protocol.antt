-- ===== src/Protocol.antt =====
-- app/klf200/protocol: the wire format of the KLF200 gateway.
pub mod Slip
pub mod Wire
pub mod Parameter
pub mod Frames
pub mod Message
pub mod Payload
pub mod Constructors
pub mod Creation
mod Fits
mod ReadBack
mod Delivery
mod Runs
