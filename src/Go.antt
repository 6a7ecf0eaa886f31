-- ===== src/Go.antt =====
-- What the program takes from Go itself: error values, contexts, and functions that may fail.
pub mod Errors
pub mod Contexts
pub mod Results
pub mod Trees
pub mod Actions
unfoldable pub use Errors.*
pub use Contexts.*
pub use Results.*
