-- ===== src/Domain.antt =====
-- internal/domain: the core types and their validation. A Go `int` is an unbounded ℤ, a
-- `time.Time` is the ℤ of nanoseconds from the zero time, a pointer that may be nil is an `Option`,
-- and float64 is the parameter `F`.
pub mod Research
pub mod Records
pub mod Backtest
pub mod Candidate
pub mod Ranked
pub mod Extracted
