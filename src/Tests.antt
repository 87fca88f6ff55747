-- ===== src/Tests.antt =====
-- Concrete inputs, and the theorems at them.
pub mod Inputs
pub mod Cpu
pub mod Access
pub mod Registers
pub mod Decode
pub mod Execute
