-- ===== src/Go.antt =====
-- What the program uses of Go and of its standard library: errors and effects, contexts, strings,
-- number conversions and formatting, durations and paths.
pub mod Error
pub mod Act
pub mod Context
pub mod Strings
pub mod Strconv
pub mod Fmt
pub mod Duration
pub mod Path
pub mod Sequence
