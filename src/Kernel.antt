-- ===== src/Kernel.antt =====
-- The operating system below the library: the calls that it makes, an arbitrary kernel that
-- answers them, and the monad of code that runs on top.
mod Calls
mod Monad
pub mod Descriptors
pub use Calls.*
unfoldable pub use Monad.*
