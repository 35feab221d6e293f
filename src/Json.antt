-- ===== src/Json.antt =====
-- The JSON of crates/mural-ipc: the reader in src/json.rs, and the writer of strings in src/lib.rs.
-- A parser's state is the rest of the input, as bytes; a `String` is the list of its characters.
pub mod Utf8
pub mod Chars
pub mod Tokens
pub mod Value
pub mod Writer
pub mod Strings
pub mod Numbers
pub mod Reads
pub mod Arrays
pub mod Objects
pub mod Eats
pub mod TokensEnd
pub mod Ends
pub mod Depth
mod Examples
