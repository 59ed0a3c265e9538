-- ===== src/Protocol/Message/RoundTrip.antt =====
-- The round trips of the frames of app/klf200/protocol, by size.
pub mod Small
pub mod Numbers
pub mod Text
pub mod NodeLists
pub mod Arrays
pub mod Info
pub mod SceneList
