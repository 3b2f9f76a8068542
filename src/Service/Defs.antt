-- ===== src/Service/Defs.antt =====
-- The transactions: the state and the outside, and the functions on them.
mod Access
mod Transactions
unfoldable pub use Access.*
unfoldable pub use Transactions.*
