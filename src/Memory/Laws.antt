-- ===== src/Memory/Laws.antt =====
-- Reads of a RAM after writes of it (src/rafi-emu/mem/Ram.cpp).
use rafi_emu.Common.{
  ℕ, zero, suc, ◌+◌, ◌^◌, ◌≤◌, ◌<◌, ◌≡◌, refl, ap, ◌∙◌, arith, List, [], ◌∷◌, ◌++◌, length, take,
  drop, length-append, length-take, length-drop, ok, ◌⊎◌, inl, inr,
}
use rafi_emu.Memory.{Ram, ram, copy_out, read, write}

-- A body holds exactly the capacity, which an address of 64 bits can reach.
pub record IsWhole (m : Ram) : Type 0 where
  pub full : length m.body ≡ m.capacity
  pub reachable : m.capacity < 2 ^ 64

-- The body after a write of `bytes` at `address`.
abbrev pub written : List ℕ → List ℕ → ℕ → List ℕ
written body bytes address = take address body ++ (bytes ++ drop (address + length bytes) body)

pub length-written :
    (body bytes : List ℕ) (address : ℕ)
    → address + length bytes ≤ length body
    → length (written body bytes address) ≡ length body
length-written body bytes address h = omega (
  arith,
  length-append (take address body) (bytes ++ drop (address + length bytes) body),
  length-append bytes (drop (address + length bytes) body),
  length-take address body,
  length-drop (address + length bytes) body,
)

take-append_self : (xs ys : List ℕ) → take (length xs) (xs ++ ys) ≡ xs
take-append_self [] ys = refl
take-append_self (x ∷ xs) ys = ap (λ l. x ∷ l) (take-append_self xs ys)

pub window-written :
    (body bytes : List ℕ) (address : ℕ)
    → address + length bytes ≤ length body
    → take (length bytes) (drop address (written body bytes address)) ≡ bytes
window-written body bytes zero h = take-append_self bytes _
window-written [] bytes (suc a) h = absurd (omega arith)
window-written (x ∷ body) bytes (suc a) h =
    let e : suc a + length bytes ≡ suc (a + length bytes) = omega arith in
    rw e (window-written body bytes a (omega arith))

drop-append_after :
    (xs ys : List ℕ) (at : ℕ)
    → length xs ≤ length ys
    → length xs ≤ at
    → drop at (xs ++ drop (length xs) ys) ≡ drop at ys
drop-append_after [] ys at h k = refl
drop-append_after (x ∷ xs) [] at h k = absurd (omega arith)
drop-append_after (x ∷ xs) (y ∷ ys) zero h k = absurd (omega arith)
drop-append_after (x ∷ xs) (y ∷ ys) (suc at) h k =
    drop-append_after xs ys at (omega arith) (omega arith)

drop-written_after :
    (body bytes : List ℕ) (address at : ℕ)
    → address + length bytes ≤ length body
    → address + length bytes ≤ at
    → drop at (written body bytes address) ≡ drop at body
drop-written_after body bytes zero at h k =
    let e : 0 + length bytes ≡ length bytes = omega arith in
    rw e (drop-append_after bytes body at (omega arith) (omega arith))
drop-written_after [] bytes (suc a) at h k = absurd (omega arith)
drop-written_after (x ∷ body) bytes (suc a) zero h k = absurd (omega arith)
drop-written_after (x ∷ body) bytes (suc a) (suc at) h k =
    let e : suc a + length bytes ≡ suc (a + length bytes) = omega arith in
    rw e (drop-written_after body bytes a at (omega arith) (omega arith))

take-take_append :
    (size address : ℕ) (xs ys : List ℕ)
    → size ≤ address
    → address ≤ length xs
    → take size (take address xs ++ ys) ≡ take size xs
take-take_append zero address xs ys h k = refl
take-take_append (suc size) zero xs ys h k = absurd (omega arith)
take-take_append (suc size) (suc a) [] ys h k = absurd (omega arith)
take-take_append (suc size) (suc a) (x ∷ xs) ys h k =
    ap (λ l. x ∷ l) (take-take_append size a xs ys (omega arith) (omega arith))

window-written_before :
    (body bytes : List ℕ) (address size at : ℕ)
    → address + length bytes ≤ length body
    → at + size ≤ address
    → take size (drop at (written body bytes address)) ≡ take size (drop at body)
window-written_before body bytes address size zero h k =
    take-take_append size address body _ (omega arith) (omega arith)
window-written_before body bytes zero size (suc at) h k = absurd (omega arith)
window-written_before [] bytes (suc a) size (suc at) h k = absurd (omega arith)
window-written_before (x ∷ body) bytes (suc a) size (suc at) h k =
    let e : suc a + length bytes ≡ suc (a + length bytes) = omega arith in
    rw e (window-written_before body bytes a size at (omega arith) (omega arith))

window-written_beside :
    (body bytes : List ℕ) (address size at : ℕ)
    → address + length bytes ≤ length body
    → (at + size ≤ address) ⊎ (address + length bytes ≤ at)
    → take size (drop at (written body bytes address)) ≡ take size (drop at body)
window-written_beside body bytes address size at h (inl k) =
    window-written_before body bytes address size at h k
window-written_beside body bytes address size at h (inr k) =
    ap (take size) (drop-written_after body bytes address at h k)

copy_out-written :
    (body bytes : List ℕ) (address size at : ℕ)
    → address + length bytes ≤ length body
    → (at + size ≤ address) ⊎ (address + length bytes ≤ at)
    → copy_out (written body bytes address) size at ≡ copy_out body size at
copy_out-written body bytes address size at h beside =
    rw (
      length-written body bytes address h,
      window-written_beside body bytes address size at h beside,
    )

-- A write inside a whole RAM succeeds and keeps it whole, the bytes written are read back from
-- there, and every window of bytes beside them reads as before.
pub read-write :
    (m : Ram) (bytes : List ℕ) (address : ℕ)
    → IsWhole m
    → address + length bytes ≤ m.capacity
    → (n : Ram) × (write (ram m) bytes address ≡ ok (ram n))
      × IsWhole n
      × (read (ram n) (length bytes) address ≡ ok bytes)
      × ((size at : ℕ)
          → (at + size ≤ address) ⊎ (address + length bytes ≤ at)
          → read (ram n) size at ≡ read (ram m) size at)
unfolding read write
read-write m bytes address w h =
    let full : address + length bytes ≤ length m.body = omega arith in
    let new = record m { body = written m.body bytes address } in
    let same = length-written m.body bytes address full in
    (
      new,
      ground arith,
      record { full = same ∙ w.full; reachable = w.reachable },
      ground (arith, same, window-written m.body bytes address full),
      λ size at beside. rw (copy_out-written m.body bytes address size at full beside),
    )
