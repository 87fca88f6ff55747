-- ===== src/RvCsr/Status.antt =====
-- The fields and masks of `xstatus_t` (mstatus, sstatus, ustatus) in include/rafi/common/RvCsr.h.
use rafi_emu.Common.{ℕ, bit_or}
use rafi_emu.BitField.{Member, bit, bits, mask}

abbrev pub sd_rv64 : Member
sd_rv64 = bit 63

abbrev pub sxl : Member
sxl = bits 35 34

abbrev pub uxl : Member
uxl = bits 33 32

abbrev pub sd_rv32 : Member
sd_rv32 = bit 31

abbrev pub tsr : Member
tsr = bit 22

abbrev pub tw : Member
tw = bit 21

abbrev pub tvm : Member
tvm = bit 20

abbrev pub mxr : Member
mxr = bit 19

abbrev pub sum : Member
sum = bit 18

abbrev pub mprv : Member
mprv = bit 17

abbrev pub xs : Member
xs = bits 16 15

abbrev pub fs : Member
fs = bits 14 13

abbrev pub mpp : Member
mpp = bits 12 11

abbrev pub spp : Member
spp = bits 8 8

abbrev pub mpie : Member
mpie = bit 7

abbrev pub spie : Member
spie = bit 5

abbrev pub upie : Member
upie = bit 4

abbrev pub mie : Member
mie = bit 3

abbrev pub sie : Member
sie = bit 1

abbrev pub uie : Member
uie = bit 0

abbrev pub write_mask : ℕ
write_mask = bit_or (mask tsr) (
    bit_or (mask tw) (
      bit_or (mask tvm) (
        bit_or (mask mxr) (
          bit_or (mask sum) (
            bit_or (mask mprv) (
              bit_or (mask xs) (
                bit_or (mask fs) (
                  bit_or (mask mpp) (
                    bit_or (mask spp) (
                      bit_or (mask mpie) (
                        bit_or (mask spie) (
                          bit_or (mask upie)
                            (bit_or (mask mie) (bit_or (mask sie) (mask uie)))))))))))))))

abbrev pub supervisor_mask_rv64 : ℕ
supervisor_mask_rv64 = bit_or (mask sd_rv64) (
    bit_or (mask sxl) (
      bit_or (mask uxl) (
        bit_or (mask mxr) (
          bit_or (mask sum) (
            bit_or (mask xs) (
              bit_or (mask fs) (
                bit_or (mask spp)
                  (bit_or (mask spie) (bit_or (mask upie) (bit_or (mask sie) (mask uie)))))))))))

abbrev pub supervisor_mask_rv32 : ℕ
supervisor_mask_rv32 = bit_or (mask sd_rv32) (
    bit_or (mask mxr) (
      bit_or (mask sum) (
        bit_or (mask xs) (
          bit_or (mask fs) (
            bit_or (mask spp)
              (bit_or (mask spie) (bit_or (mask upie) (bit_or (mask sie) (mask uie)))))))))

abbrev pub user_mask : ℕ
user_mask = bit_or (mask upie) (mask uie)
