-- ===== src/RvCsr/Addr.antt =====
-- The CSR addresses of `csr_addr_t` in include/rafi/common/RvCsr.h that the emulator names.
use rafi_emu.Common.{ℕ}

abbrev pub ustatus : ℕ
ustatus = 0x000

abbrev pub uie : ℕ
uie = 0x004

abbrev pub utvec : ℕ
utvec = 0x005

abbrev pub uscratch : ℕ
uscratch = 0x040

abbrev pub uepc : ℕ
uepc = 0x041

abbrev pub ucause : ℕ
ucause = 0x042

abbrev pub utval : ℕ
utval = 0x043

abbrev pub uip : ℕ
uip = 0x044

abbrev pub fflags : ℕ
fflags = 0x001

abbrev pub frm : ℕ
frm = 0x002

abbrev pub fcsr : ℕ
fcsr = 0x003

abbrev pub sstatus : ℕ
sstatus = 0x100

abbrev pub sedeleg : ℕ
sedeleg = 0x102

abbrev pub sideleg : ℕ
sideleg = 0x103

abbrev pub sie : ℕ
sie = 0x104

abbrev pub stvec : ℕ
stvec = 0x105

abbrev pub scounteren : ℕ
scounteren = 0x106

abbrev pub sscratch : ℕ
sscratch = 0x140

abbrev pub sepc : ℕ
sepc = 0x141

abbrev pub scause : ℕ
scause = 0x142

abbrev pub stval : ℕ
stval = 0x143

abbrev pub sip : ℕ
sip = 0x144

abbrev pub satp : ℕ
satp = 0x180

abbrev pub mstatus : ℕ
mstatus = 0x300

abbrev pub misa : ℕ
misa = 0x301

abbrev pub medeleg : ℕ
medeleg = 0x302

abbrev pub mideleg : ℕ
mideleg = 0x303

abbrev pub mie : ℕ
mie = 0x304

abbrev pub mtvec : ℕ
mtvec = 0x305

abbrev pub mcounteren : ℕ
mcounteren = 0x306

abbrev pub mscratch : ℕ
mscratch = 0x340

abbrev pub mepc : ℕ
mepc = 0x341

abbrev pub mcause : ℕ
mcause = 0x342

abbrev pub mtval : ℕ
mtval = 0x343

abbrev pub mip : ℕ
mip = 0x344

abbrev pub pmpcfg0 : ℕ
pmpcfg0 = 0x3a0

abbrev pub pmpcfg1 : ℕ
pmpcfg1 = 0x3a1

abbrev pub pmpcfg2 : ℕ
pmpcfg2 = 0x3a2

abbrev pub pmpcfg3 : ℕ
pmpcfg3 = 0x3a3

abbrev pub pmpaddr_begin : ℕ
pmpaddr_begin = 0x3b0

abbrev pub pmpaddr_end : ℕ
pmpaddr_end = 0x3c0

abbrev pub mhpmcounter_begin : ℕ
mhpmcounter_begin = 0xb00

abbrev pub mcycle : ℕ
mcycle = 0xb00

abbrev pub minstret : ℕ
minstret = 0xb02

abbrev pub mhpmcounter_end : ℕ
mhpmcounter_end = 0xb20

abbrev pub mhpmcounterh_begin : ℕ
mhpmcounterh_begin = 0xb80

abbrev pub mcycleh : ℕ
mcycleh = 0xb80

abbrev pub minstreth : ℕ
minstreth = 0xb82

abbrev pub mhpmcounterh_end : ℕ
mhpmcounterh_end = 0xba0

abbrev pub hpmcounter_begin : ℕ
hpmcounter_begin = 0xc00

abbrev pub cycle : ℕ
cycle = 0xc00

abbrev pub time : ℕ
time = 0xc01

abbrev pub instret : ℕ
instret = 0xc02

abbrev pub hpmcounter_end : ℕ
hpmcounter_end = 0xc20

abbrev pub hpmcounterh_begin : ℕ
hpmcounterh_begin = 0xc80

abbrev pub cycleh : ℕ
cycleh = 0xc80

abbrev pub timeh : ℕ
timeh = 0xc81

abbrev pub instreth : ℕ
instreth = 0xc82

abbrev pub hpmcounterh_end : ℕ
hpmcounterh_end = 0xca0

abbrev pub mvendorid : ℕ
mvendorid = 0xf11

abbrev pub marchid : ℕ
marchid = 0xf12

abbrev pub mimpid : ℕ
mimpid = 0xf13

abbrev pub mhartid : ℕ
mhartid = 0xf14
