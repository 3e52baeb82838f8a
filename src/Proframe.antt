-- ===== src/Proframe.antt =====
-- What the C modules use of the ProFrame runtime. The runtime's headers and libraries are not in
-- the repository: its calls are the fields of `Pfm`, and a run is a step from one `Machine` to the
-- next.
mod Monad
pub mod Laws
pub mod Cursor
pub mod Returns
pub use Monad.*
