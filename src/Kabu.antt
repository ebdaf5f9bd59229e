-- ===== src/Kabu.antt =====
-- The packet protocol of the game servers, mysdk/protocol/kabu/codec.
pub mod Packet
pub mod Codec
