-- ===== src/Optimize.antt =====
-- src/optimize.c: the machine independent optimizer.
pub mod Pool
pub mod Symbols
pub mod Algebra
pub mod UnusedVars
pub mod Driver
