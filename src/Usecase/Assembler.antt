-- ===== src/Usecase/Assembler.antt =====
-- internal/usecase/assembler_usecase.go.
mod Announce
mod Build
mod Defs
mod Outcomes
mod Ended
unfoldable pub use Announce.*
unfoldable pub use Build.*
unfoldable pub use Defs.*
pub use Outcomes.*
pub use Ended.*
