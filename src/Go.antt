-- ===== src/Go.antt =====
-- What the Go sources use of the standard library: bytes and strings, strconv, encoding/hex and
-- encoding/base64.
pub mod Text
pub mod Replace
pub mod Decimal
pub mod Base64
