-- ===== src/Executor.antt =====
-- src/rafi-emu/cpu/Executor.h and Executor.cpp: the execution of a decoded instruction.
pub mod Arith
pub mod Machine
pub mod Operands
pub mod Values32
pub mod Values64
pub mod ValuesC32
pub mod ValuesC64
pub mod Rv32I
pub mod Rv64I
pub mod Rv32C
pub mod Rv64C
pub mod System32
pub mod System64
pub mod Access32
pub mod Access64
pub mod AccessC32
pub mod AccessC64
pub mod Integer32
pub mod Integer64
pub mod MulDiv32
pub mod MulDiv64
pub mod Atomics
pub mod Atomic
pub mod Compressed32
pub mod Compressed64
pub mod PreCheck
pub mod PreCheckC32
pub mod PreCheckC64
pub mod Checks
pub mod PreCheckAll
pub mod Process
pub mod KeepsOp
pub mod Runs
pub mod Handled
pub mod StoreConditional
pub mod MulDivLaws
pub mod WordShifts
pub mod Keeps
pub mod KeepsRegisters
pub mod KeepsInteger
pub mod KeepsMulAtomic
pub mod KeepsCompressed
pub mod KeepsChecksC
pub mod KeepsChecks
