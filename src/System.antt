-- ===== src/System.antt =====
-- The world outside the crate, and the monad in which the crate's functions are written.
mod Calls
mod State
mod Interface
mod Binds
mod Views
pub use Calls.*
pub use State.*
pub use Binds.*
unfoldable pub use Views.*
unfoldable pub use Interface.*
