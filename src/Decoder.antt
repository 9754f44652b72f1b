-- ===== src/Decoder.antt =====
-- indexer/internal/decoder/decoder.go: from Soroban's ScVal to the DecodedValue taxonomy. The XDR
-- library is the parameter `Xdr`. The atomic counter is passed along.
pub mod Tests
pub mod Value
pub mod Xdr
pub mod Wide
pub mod Decode
pub mod Unmarshal
