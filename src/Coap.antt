-- ===== src/Coap.antt =====
-- picocoap/src: the CoAP message buffer, its readers and its writers.
pub mod Pdu
pub mod Fields
pub mod Wire
pub mod Header
pub mod Reader
pub mod Writer
pub mod Lookup
