-- ===== src/Decode.antt =====
-- permanode/src/decode.rs: reading a raw block. `Chain` is what the code uses of the node's crates,
-- `Bound` the binding of bytes to a block, `Flags` the contract flags, `Retained` the whole body.
pub mod Chain
pub mod Bound
pub mod Flags
pub mod Retained
pub mod Binding
mod Tests
pub mod Numbering
