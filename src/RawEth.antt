-- ===== src/RawEth.antt =====
-- raw_eth/rxtx: a sender and receivers of raw Ethernet frames.
-- A frame is a record of the structs that the code lays over its bytes. The fields hold what a
-- little-endian machine reads from them. The verbs and `inet_pton` are parameters.
pub mod Frame
pub mod Checksum
pub mod Verified
pub mod Sender
pub mod Sequence
pub mod Receiver
pub mod Ring
pub mod Fifo
pub mod Delivery
pub mod Sent
pub mod Inet
