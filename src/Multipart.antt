-- ===== src/Multipart.antt =====
-- hiyori/multipart.py: the definitions of two children, passed on, and their laws in the others.
pub mod Field
pub mod Form
pub mod Parts
pub mod Content
pub mod Format
pub mod Calls
pub mod Measured
pub mod Reader
unfoldable pub use Field.*
unfoldable pub use Form.*
