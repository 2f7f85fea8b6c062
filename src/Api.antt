-- ===== src/Api.antt =====
-- lib-ayd: the data that the other packages exchange.
pub mod Status
pub mod Record
pub mod ParseTime
