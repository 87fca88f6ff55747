-- ===== src/RegFile/Atomic.antt =====
-- src/rafi-emu/cpu/AtomicManager.h and AtomicManager.cpp: the reservation of LR and SC.
use rafi_emu.Common.{ℕ, Bool, true, false}

pub record AtomicManager : Type 0 where
  pub address : ℕ
  pub reserved : Bool

unfoldable pub reserve : AtomicManager → ℕ → AtomicManager
reserve a addr = record a { address = addr; reserved = true }

unfoldable pub cancel : AtomicManager → AtomicManager
cancel a = record a { reserved = false }
