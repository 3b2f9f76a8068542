-- ===== src/HashMap.antt =====
-- `std::collections::HashMap` as the program uses it: an association list whose order stands for
-- the unspecified order of iteration. A map holds each key once (`NodupKeys`).
mod Laws
unfoldable pub use Laws.*
