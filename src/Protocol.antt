-- ===== src/Protocol.antt =====
-- crates/mural-ipc/src/lib.rs: requests, their text as JSON, and how it is read.
pub mod Words
pub mod Registry
pub mod Messages
pub mod Fields
pub mod Float
pub mod Transitions
pub mod RequestParts
pub mod Requests
pub mod Writer
pub mod Items
pub mod Maps
pub mod TransitionFields
pub mod TransitionBack
pub mod RequestFields
pub mod RequestText
pub mod RequestBack
pub mod RequestRoundTrip
pub mod Public
pub mod TokenBounds
pub mod Accepted
pub mod FieldBounds
pub mod RequestBounds
pub mod AcceptedRequests
pub mod Responses
mod Examples
