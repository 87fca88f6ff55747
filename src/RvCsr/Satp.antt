-- ===== src/RvCsr/Satp.antt =====
-- The fields of `satp_t` in include/rafi/common/RvCsr.h.
use rafi_emu.BitField.{Member, bit, bits}

abbrev pub mode_rv64 : Member
mode_rv64 = bits 63 60

abbrev pub asid_rv64 : Member
asid_rv64 = bits 59 44

abbrev pub ppn_rv64 : Member
ppn_rv64 = bits 43 0

abbrev pub mode_rv32 : Member
mode_rv32 = bit 31

abbrev pub asid_rv32 : Member
asid_rv32 = bits 30 22

abbrev pub ppn_rv32 : Member
ppn_rv32 = bits 21 0
