-- ===== src/RvCsr/Tvec.antt =====
-- The fields of `xtvec_t` (mtvec, stvec, utvec) in include/rafi/common/RvCsr.h.
use rafi_emu.BitField.{Member, bits}

abbrev pub base_rv32 : Member
base_rv32 = bits 31 2

abbrev pub base_rv64 : Member
base_rv64 = bits 63 2

abbrev pub mode : Member
mode = bits 1 0
