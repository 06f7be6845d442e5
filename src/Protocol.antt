-- ===== src/Protocol.antt =====
-- packages/protocol: length-prefixed frames that carry CBOR values.
pub mod Framing
pub mod Cbor
