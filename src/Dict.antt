-- ===== src/Dict.antt =====
-- A Python dict with text keys, as its items in insertion order.
mod Defs
mod Laws
unfoldable pub use Defs.{lookup, insert, delete, keys}
pub use Laws.*
