-- ===== src/Lib.antt =====
-- rafi-emu, a RISC-V emulator in C++: its processor, from the decoder to the registers, and the
-- memory system.
--
-- The parts and where they are modelled:
--   Common                 shared names: Boolean tests, lists over ℕ, and `Outcome`, how a C++ call
--                          ends (a value, an exception, or no meaning)
--   Bits, BitField, Word   include/rafi/common/BitField.h and Util.h: words are natural numbers with
--                          the wrap at 2^w written out; GetMember, SetMember and SetWithMask are
--                          get_member, set_member and set_with_mask, with the width as an argument
--   RvTypes, RvCsr,        include/rafi/common/RvTypes.h, RvCsr.h and RvPageTable.h: enumerations,
--   RvPageTable            register addresses, and the fields of registers, entries and addresses
--   Memory, Bytes, Bus     src/rafi-emu/mem/Ram.cpp and Rom.cpp, src/rafi-emu/bus/Bus.cpp: the bus
--                          keeps its memories in a store, and an entry of the map names one by its
--                          place. A device is a parameter with its two operations (`Bus.Io`).
--                          ReadUInt8 to ReadUInt64 are read_uint, by the number of bytes, and
--                          WriteUInt8 to WriteUInt64 are write_uint
--   Trap, Csr              src/rafi-emu/cpu/Trap.cpp and Csr.cpp: the registers are a record, a method
--                          that changes them returns the new record; ReadUInt64, WriteUInt64 and
--                          CheckTrap are Csr.Read.read_u64, Csr.Write.write_u64 and
--                          Csr.Check.check_trap
--   RegFile                src/rafi-emu/cpu/IntRegFile.cpp, FpRegFile.cpp and AtomicManager.cpp: the
--                          entries are 64-bit words; reads and writes of 32 bits take the low half
--   TrapProcessor          src/rafi-emu/cpu/TrapProcessor.cpp: ProcessTrapEnter, ProcessException,
--                          ProcessInterrupt and ProcessTrapReturn under the same names; a call
--                          returns the object and the registers
--   InterruptController    src/rafi-emu/cpu/InterruptController.cpp: UpdateCsr and Update; what the
--                          two sources answer is an argument
--   MemoryAccessUnit       src/rafi-emu/cpu/MemoryAccessUnit.cpp: CheckTrapSvN and TranslateSvN,
--                          unrolled as in the source, in a monad over the bus; `Walk` is the page
--                          walk as one recursion over the levels, with `find_leaf`, which looks for
--                          the leaf alone; `WalkSvN` relates the unrolled functions to it;
--                          `Translate` holds CheckTrap, Translate, the loads, the stores and the
--                          fetches
--   Op, Decoder            include/rafi/common/OpTypes.h and src/librafi_common/DecoderImpl.cpp: an op
--                          is its class, its code and its operand; DecodeI to DecodeD and DecodeC are
--                          decode_i to decode_d and decode_c, their large cases functions of their own;
--                          `Formats` builds the words of the manual's formats
--   Executor               src/rafi-emu/cpu/Executor.cpp: `Machine` holds what an Executor points to,
--                          a method is a step on it. process_op, pre_check_trap and post_check_trap
--                          are ProcessOp, PreCheckTrap and PostCheckTrap; the ProcessRV* methods keep
--                          their names, and the switch inside one is a function of the Values modules.
--                          `Error(op)`, which ends the process, is an exception. Signed sums and
--                          products that overflow wrap, as compilers leave them here; a shift by the
--                          width or more has no meaning. The high halves of 128-bit products, which
--                          boost computes, are the parameter `Wide`; ProcessRVF and ProcessRVD are the
--                          parameter `Floating`
--   Processor              src/rafi-emu/cpu/Processor.cpp: `Step` is Fetch and ProcessCycle from the
--                          decoder on, `Cycle` is ProcessCycle
--   Tests                  concrete inputs for the theorems
--
-- How they interact: a cycle asks InterruptController, fetches over MemoryAccessUnit, decodes, asks
-- PreCheckTrap (with Csr.CheckTrap and MemoryAccessUnit.CheckTrap in it), executes, asks PostCheckTrap,
-- and calls TrapProcessor when there is a trap; TrapProcessor, InterruptController and
-- MemoryAccessUnit read and write the registers of Csr; MemoryAccessUnit walks page tables and
-- accesses memory through Bus.
--
-- Nothing here recurses on fuel: the page walk recurses on the list of levels.
--
-- Not modelled: floating-point instructions (ProcessRVF and ProcessRVD, over a wrapper of a soft-float
-- library: no theorem assumes anything of them, and those that would depend on them leave the F and D
-- classes out or have floating point switched off), the devices, the gdb server, the trace format,
-- and the tools. Loading files into memories, registering interrupt sources, the copies of registers for
-- the trace, and the messages that the code prints are left out of the parts that are modelled.
pub mod Common
pub mod Op
pub mod Decoder
pub mod Bits
pub mod BitField
pub mod Word
pub mod RvTypes
pub mod Bytes
pub mod Memory
pub mod Bus
pub mod RvPageTable
pub mod MemoryAccessUnit
pub mod RvCsr
pub mod Trap
pub mod Csr
pub mod TrapProcessor
pub mod InterruptController
pub mod Tests
pub mod RegFile
pub mod Executor
pub mod Processor
