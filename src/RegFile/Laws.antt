-- ===== src/RegFile/Laws.antt =====
-- What the register files promise (src/rafi-emu/cpu/IntRegFile.cpp and FpRegFile.cpp).
use rafi_emu.Common.{
  ℕ, ◌+◌, ◌*◌, ◌/◌, ◌%◌, ◌^◌, ◌<◌, ◌≤◌, ◌-◌, ◌≡◌, ◌≢◌, refl, ap, ◌∙◌, arith, length, get_elem?, set,
  get_elem?-set_self, get_elem?-set_ne, get_elem?-below, length-set, some, ok,
}
use rafi_emu.RegFile.{with_low}
use rafi_emu.RegFile.Integer.{IntRegFile, read_int32, read_int64, write_int32, write_int64}
use rafi_emu.RegFile.Floating.{FpRegFile, read_fp32, read_fp64, write_fp32}

-- 32 entries, the first of which is 0.
pub record IsRegFile (f : IntRegFile) : Type 0 where
  pub size : length f.entries ≡ 32
  pub x0 : get_elem? f.entries 0 ≡ some 0

pub read_int64-entry :
    (f : IntRegFile) (i v : ℕ) → i ≤ 32 → get_elem? f.entries i ≡ some v → read_int64 f i ≡ ok v
unfolding read_int64
read_int64-entry f i v h e = ground arith

read_int64-same :
    (f g : IntRegFile) (j : ℕ)
    → get_elem? g.entries j ≡ get_elem? f.entries j
    → read_int64 g j ≡ read_int64 f j
unfolding read_int64
read_int64-same f g j e = cc

pub write_int64-run :
    (f : IntRegFile) (i v : ℕ)
    → i < 32
    → i ≢ 0
    → length f.entries ≡ 32
    → write_int64 f i v ≡ ok (record { entries = set f.entries i v })
unfolding write_int64
write_int64-run f i v h n l = ground arith

-- A write to a register other than x0 is read back, keeps x0 at 0, and changes no other register.
pub read_int64-write_int64 :
    (f : IntRegFile) (i v : ℕ)
    → IsRegFile f
    → i < 32
    → i ≢ 0
    → (g : IntRegFile) × (write_int64 f i v ≡ ok g)
      × IsRegFile g
      × (read_int64 g i ≡ ok v)
      × ((j : ℕ) → i ≢ j → read_int64 g j ≡ read_int64 f j)
read_int64-write_int64 f i v w h n = (
  record { entries = set f.entries i v },
  write_int64-run f i v h n w.size,
  record { size = length-set f.entries i v ∙ w.size; x0 = get_elem?-set_ne f.entries v n ∙ w.x0 },
  read_int64-entry (record { entries = set f.entries i v }) i v (omega arith)
      (get_elem?-set_self f.entries i v (omega (arith, w.size))),
  λ j ne.
      read_int64-same f (record { entries = set f.entries i v }) j
        (get_elem?-set_ne f.entries v ne),
)

-- A write to x0 of either width changes nothing.
pub write_int-x0 :
    (f : IntRegFile) (v : ℕ) → (write_int64 f 0 v ≡ ok f) × (write_int32 f 0 v ≡ ok f)
unfolding write_int64 write_int32
write_int-x0 f v = (refl, refl)

pub read_int32-entry :
    (f : IntRegFile) (i v : ℕ)
    → i ≤ 32
    → get_elem? f.entries i ≡ some v
    → read_int32 f i ≡ ok (v % 2 ^ 32)
unfolding read_int32
read_int32-entry f i v h e = ground arith

pub write_int32-run :
    (f : IntRegFile) (i e v : ℕ)
    → i < 32
    → i ≢ 0
    → length f.entries ≡ 32
    → get_elem? f.entries i ≡ some e
    → write_int32 f i v ≡ ok (record { entries = set f.entries i (with_low e v) })
unfolding write_int32
write_int32-run f i e v h n l a = ground arith

-- A 32-bit write to a register other than x0 changes its low half alone: a 32-bit read gives the
-- value, a 64-bit read the value below the old high half.
pub read_int32-write_int32 :
    (f : IntRegFile) (i e v : ℕ)
    → IsRegFile f
    → i < 32
    → i ≢ 0
    → read_int64 f i ≡ ok e
    → v < 2 ^ 32
    → (g : IntRegFile) × (write_int32 f i v ≡ ok g)
      × (read_int32 g i ≡ ok v)
      × (read_int64 g i ≡ ok (e / 2 ^ 32 * 2 ^ 32 + v))
read_int32-write_int32 f i e v w h n r b =
    let (x, at) = get_elem?-below f.entries i (omega (arith, w.size)) in
    let stored : get_elem? f.entries i ≡ some e = cc (read_int64-entry f i x (omega arith) at) in
    let g : IntRegFile = record { entries = set f.entries i (with_low e v) } in
    let same = get_elem?-set_self f.entries i (with_low e v) (omega (arith, w.size)) in
    (
      g,
      write_int32-run f i e v h n w.size stored,
      read_int32-entry g i (with_low e v) (omega arith) same ∙ ap ok (omega arith),
      read_int64-entry g i (with_low e v) (omega arith) same ∙ ap ok (omega arith),
    )

-- A 32-bit floating write is read back, and a 64-bit read of the register gives the value boxed in
-- ones.
pub read_fp32-write_fp32 :
    (f : FpRegFile) (i v : ℕ)
    → length f.entries ≡ 32
    → i < 32
    → v < 2 ^ 32
    → (g : FpRegFile) × (write_fp32 f i v ≡ ok g)
      × (length g.entries ≡ 32)
      × (read_fp32 g i ≡ ok v)
      × (read_fp64 g i ≡ ok (2 ^ 64 - 2 ^ 32 + v))
unfolding write_fp32 read_fp32 read_fp64
read_fp32-write_fp32 f i v l h b =
    let entry = 0xffff_ffff * 2 ^ 32 + v % 2 ^ 32 in
    let same = get_elem?-set_self f.entries i entry (omega arith) in
    (
      record { entries = set f.entries i entry },
      ground arith,
      length-set f.entries i entry ∙ l,
      ground (arith, same),
      ground (arith, same),
    )
