-- ===== src/Processor.antt =====
-- src/rafi-emu/cpu/Processor.h and Processor.cpp: one cycle of the processor. The interrupt
-- sources are an argument; the bus is part of the machine.
pub mod Step
pub mod Cycle
pub mod Fetches
pub mod Keeps
pub mod Alu
pub mod Illegal
pub mod Jump
pub mod Interrupts
