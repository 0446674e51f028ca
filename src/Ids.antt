-- ===== src/Ids.antt =====
-- Identifiers as texts: base64 (base64.rs), request ids (request_id.rs) and public connection ids
-- (chat/cid.rs). A text is the list of its code points.
pub mod Digits
pub mod Base64
pub mod RequestId
pub mod Decoding
pub mod PubCid
