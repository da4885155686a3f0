-- ===== src/LogicArray.antt =====
-- The four-state values of rustdv/rustdv-gpi/src/value.rs. `BigUint` is the `num_bigint` crate's: its
-- operations are parameters, with the laws that the code relies on. A `&str` is its list of characters.
pub mod Big
pub mod Codec
pub mod Strings
pub mod Resolve
pub mod Numbers
pub mod Words
pub mod Bits
mod Tests
