-- ===== src/Csr/StatusView.antt =====
-- The status register through its three addresses: which fields mstatus and sstatus read, and what
-- a write leaves in them.
use rafi_emu.Common.{
  ℕ, ◌-◌, ◌^◌, ◌≡◌, refl, sym, ap, ◌∙◌, ◌≢◌, arith, ok, bit_and, Bool, true, false, if◌then◌else◌,
}
use rafi_emu.BitField.{Member, mask, set_member}
use rafi_emu.BitField.Laws.{
  field-bit_and_covered, field, Covers, Misses, set_member_missed, set_with_mask_covered,
  field-mod_covered, field-bit_and_missed,
}
use rafi_emu.Word.{u32}
use rafi_emu.RvTypes.{Xlen, xlen32, xlen64, xlen128}
use rafi_emu.RvCsr.Addr
use rafi_emu.RvCsr.Status
use rafi_emu.Csr.{Csr, set_dirty, read_status, write_status}
use rafi_emu.Csr.Write.{write_u64}

-- A field of the status register that software may write: inside the write mask and the low word,
-- and apart from the summary bit SD.
pub record IsWritable (f : Member) : Type 0 where
  pub covered : Covers f Status.write_mask
  pub kept_out : Misses f (2 ^ 64 - 1 - Status.write_mask)
  pub low : Covers f (2 ^ 32 - 1)
  pub not_sd32 : Misses f (mask Status.sd_rv32)
  pub beside_sd32 : Covers f (2 ^ 64 - 1 - mask Status.sd_rv32)
  pub not_sd64 : Misses f (mask Status.sd_rv64)
  pub beside_sd64 : Covers f (2 ^ 64 - 1 - mask Status.sd_rv64)

dirty_field :
    (b : Bool) (x : Xlen) (v : ℕ)
    → x ≢ xlen128
    → (s : ℕ) × ((if b then set_dirty x v else ok v) ≡ ok s)
      × ((f : Member) → IsWritable f → field f s ≡ field f v)
unfolding set_dirty
dirty_field false x v h = (v, refl, λ f w. refl)
dirty_field true xlen32 v h = (
  set_member 64 Status.sd_rv32 v 1,
  refl,
  λ f w. set_member_missed 64 f Status.sd_rv32 v 1 w.not_sd32 w.beside_sd32,
)
dirty_field true xlen64 v h = (
  set_member 64 Status.sd_rv64 v 1,
  refl,
  λ f w. set_member_missed 64 f Status.sd_rv64 v 1 w.not_sd64 w.beside_sd64,
)
dirty_field true xlen128 v h = absurd (h refl)

-- Reading the status succeeds, and SD aside it is what is stored.
pub field-read_status :
    (c : Csr)
    → c.xlen ≢ xlen128
    → (s : ℕ) × (read_status c ≡ ok s)
      × ((f : Member) → IsWritable f → field f s ≡ field f c.status)
unfolding read_status
field-read_status c h = dirty_field _ c.xlen c.status h

dirty_run :
    (b : Bool) (x : Xlen) (v s : ℕ) (f : Member)
    → IsWritable f
    → (if b then set_dirty x v else ok v) ≡ ok s
    → field f s ≡ field f v
unfolding set_dirty
dirty_run false x v s f w h = let same : v ≡ s = cc in ap (field f) (sym same)
dirty_run true xlen32 v s f w h =
    let same : set_member 64 Status.sd_rv32 v 1 ≡ s = cc in
    ap (field f) (sym same) ∙ set_member_missed 64 f Status.sd_rv32 v 1 w.not_sd32 w.beside_sd32
dirty_run true xlen64 v s f w h =
    let same : set_member 64 Status.sd_rv64 v 1 ≡ s = cc in
    ap (field f) (sym same) ∙ set_member_missed 64 f Status.sd_rv64 v 1 w.not_sd64 w.beside_sd64
dirty_run true xlen128 v s f w h = cc

-- A status that was read has the fields of the stored one, whatever the width is.
pub read_status-field :
    (c : Csr) (f : Member) (s : ℕ)
    → IsWritable f
    → read_status c ≡ ok s
    → field f s ≡ field f c.status
unfolding read_status
read_status-field c f s w h = dirty_run _ c.xlen c.status s f w h

pub fs-IsWritable : IsWritable Status.fs
fs-IsWritable = omega arith

-- A write of the status gives each field that may be written its bits of the value.
pub field-write_status :
    (c : Csr) (v : ℕ) (f : Member) → IsWritable f → field f (write_status c v).status ≡ field f v
unfolding write_status
field-write_status c v f w =
    set_with_mask_covered 64 f c.status (u32 v) Status.write_mask w.covered w.kept_out
    ∙ field-mod_covered 32 f v w.low

-- A field that the supervisor mask misses is lost by a write through sstatus.
pub field-write_status_masked :
    (c : Csr) (v m : ℕ) (f : Member)
    → IsWritable f
    → Misses f m
    → field f (write_status c (bit_and v m)).status ≡ 0
field-write_status_masked c v m f w n =
    field-write_status c (bit_and v m) f w ∙ field-bit_and_missed f v m n

pub mpp-IsWritable : IsWritable Status.mpp
mpp-IsWritable = omega arith

pub mpie-IsWritable : IsWritable Status.mpie
mpie-IsWritable = omega arith

pub mie-IsWritable : IsWritable Status.mie
mie-IsWritable = omega arith

pub mprv-IsWritable : IsWritable Status.mprv
mprv-IsWritable = omega arith

pub spp-IsWritable : IsWritable Status.spp
spp-IsWritable = omega arith

pub spie-IsWritable : IsWritable Status.spie
spie-IsWritable = omega arith

pub sie-IsWritable : IsWritable Status.sie
sie-IsWritable = omega arith

pub upie-IsWritable : IsWritable Status.upie
upie-IsWritable = omega arith

pub uie-IsWritable : IsWritable Status.uie
uie-IsWritable = omega arith

-- A write of mstatus succeeds; each writable field then reads its bits of the value, whatever was
-- stored before, and no other register changes.
pub read-write_mstatus :
    (c : Csr) (v : ℕ) (f : Member)
    → IsWritable f
    → (write_u64 c Addr.mstatus v ≡ ok (write_status c v))
      × (field f (write_status c v).status ≡ field f v)
unfolding write_u64
read-write_mstatus c v f w = (refl, field-write_status c v f w)

-- A write of sstatus on RV64: a field inside the supervisor mask reads its bits of the value. Every
-- other field that may be written, such as MPP, MIE, MPIE or MPRV, is cleared, whatever the value
-- and whatever it held before.
pub write_sstatus-status :
    (c : Csr) (v : ℕ)
    → c.xlen ≡ xlen64
    → (d : Csr) × (write_u64 c Addr.sstatus v ≡ ok d)
      × ((f : Member)
          → IsWritable f
          → Covers f Status.supervisor_mask_rv64
          → field f d.status ≡ field f v)
      × ((f : Member) → IsWritable f → Misses f Status.supervisor_mask_rv64 → field f d.status ≡ 0)
unfolding write_u64
write_sstatus-status c v h = (
  write_status c (bit_and v Status.supervisor_mask_rv64),
  rw h,
  λ f w m. field-write_status c _ f w ∙ field-bit_and_covered f v Status.supervisor_mask_rv64 m,
  λ f w m. field-write_status_masked c v _ f w m,
)
