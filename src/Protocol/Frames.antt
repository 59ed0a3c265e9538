-- ===== src/Protocol/Frames.antt =====
-- app/klf200/protocol: the frames of the frame_*.go files, each with its payload. A frame is a
-- record; `UnmarshalPayload` takes the frame that the registry's constructor made, since it leaves
-- the fields that it does not read as they are.
pub mod Bytes
pub mod Commands
pub mod Status
pub mod Limitation
pub mod Nodes
pub mod Simple
pub mod Auth
pub mod Network
pub mod Naming
pub mod Scenes
