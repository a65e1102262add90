-- ===== src/Assembler.antt =====
-- internal/assembler/types.go: packets, and how they are marshalled. A slice that may be nil is an
-- option; a field that is left out when empty is a plain list. Marshalling strings, integers and
-- their structs cannot fail, so the source's marshal errors have no model.
pub mod Packet
pub mod Compaction
pub mod Normalize
pub mod Assemble
unfoldable pub use Packet.*
