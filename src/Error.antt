-- ===== src/Error.antt =====
-- src/error.rs: source positions and `TraceError`. The text of a message is the constructor of
-- `Message` for its format string, with what the string interpolates.
use tracescript.Prelude.{ℕ}

pub record SourcePos : Type 0 where
  pub line : ℕ
  pub col : ℕ
  pub offset : ℕ

abbrev pub no_pos : SourcePos
no_pos = record { line = 0; col = 0; offset = 0 }
