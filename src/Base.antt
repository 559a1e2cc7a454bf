-- ===== src/Base.antt =====
-- What all modules share: names of the libraries, tests, lists, order, and the laws of the native
-- bit operations that the C code's masks and shifts need.
mod Names
mod Tests
mod Lists
mod Order
mod Bits
mod Int
mod Tables
mod Memory
mod Copy
mod Takes
pub use Names.*
pub use Tests.*
pub use Lists.*
pub use Order.*
pub use Bits.*
pub use Int.*
unfoldable pub use Tables.*
pub use Memory.*
unfoldable pub use Copy.*
pub use Takes.*
