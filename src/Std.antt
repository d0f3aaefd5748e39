-- ===== src/Std.antt =====
-- What the program uses of Go's standard library: `strconv`, `strings`, `encoding/base64`,
-- `encoding/hex`, `fmt`, `bufio` and
-- `archive/tar`.
pub mod Strconv
pub mod Strings
pub mod Base64
pub mod Hex
pub mod Fmt
pub mod Bufio
pub mod Tar
