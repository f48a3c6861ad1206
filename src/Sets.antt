-- ===== src/Sets.antt =====
-- Sets of texts: the interface, and a plain value of it.
mod Interface
pub mod Plain
pub use Interface.*
