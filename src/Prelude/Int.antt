-- ===== src/Prelude/Int.antt =====
-- Signed integers over the native numbers, Go's int64 with its wrap-around, and their decimal texts.
mod Base
mod Decimal
mod RoundTrip
unfoldable pub use Base.*
unfoldable pub use Decimal.*
pub use RoundTrip.*
