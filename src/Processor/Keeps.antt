-- ===== src/Processor/Keeps.antt =====
-- src/rafi-emu/cpu/Processor.cpp: the register file over a cycle.
use rafi_emu.Common.{
  ℕ, Option, none, some, ◌≡◌, refl, sym, ◌∙◌, Bool, true, false, Bool-cases, ap, Outcome, ok,
  throws, undefined, inl, inr, ◌==◌, not, if◌then◌else◌,
}
use rafi_emu.BitField.{get_member}
use rafi_emu.BitField.Laws.{get_member-field}
use rafi_emu.RvCsr.Status
use rafi_emu.Csr.{Csr, read_status, write_interrupt_pending}
use rafi_emu.Csr.StatusView.{read_status-field, fs-IsWritable}
use rafi_emu.Executor.Checks.{is_fp_enabled}
use rafi_emu.Executor.PreCheckAll.{pre_check_trap, pre_check_trap_class, pre_check_trap_fp}
use rafi_emu.RvTypes.{Xlen, PrivilegeLevel}
use rafi_emu.Bus.{Io}
use rafi_emu.Op.{Op, OpClass}
use rafi_emu.Decoder.{decode32}
use rafi_emu.Trap.{Trap, make_illegal_instruction_exception}
use rafi_emu.TrapProcessor.{process_exception, process_interrupt}
use rafi_emu.InterruptController.{
  Sources, InterruptController, update, update_csr, interrupts_enabled,
}
use rafi_emu.Csr.Read.{read_u32}
use rafi_emu.RvCsr.Addr
use rafi_emu.Processor.Fetches.{Fetches-run, fetch-Fetches}
use rafi_emu.Csr as Csr
use rafi_emu.Executor.Machine.{pure, Machine, Wide, E, ◌>>=◌, lift, get_csr}
use rafi_emu.Executor.Process.{Floating}
use rafi_emu.Executor.Keeps.{
  leaves_throws, leaves_undefined, Leaves, leaves, Leaves-bind, Leaves-any, Leaves-if, IsMachine,
  Keeps, keeps, Keeps-run, step,
}
use rafi_emu.Executor.KeepsChecks.{pre_check_trap-Keeps, post_check_trap-Keeps}
use rafi_emu.Executor.KeepsOp.{is_floating, process_op-Keeps}
use rafi_emu.Processor.Step.{
  is_unknown, Fetched, fetch_trap, fetched, raise, raise_if, execute, execute_unless,
  execute_checked, process_insn,
}
use rafi_emu.Processor.Cycle.{
  Processor, begin_cycle, update_interrupts, take_interrupt, after_fetch, run_instruction,
  run_or_interrupt, process_cycle, with_machine, set_op_event, clear_op_event,
}

module _ {D : Type 0} where
  raise-Keeps : (t : Trap) → Keeps {D = D} (raise t)
  unfolding raise
  raise-Keeps t =
      keeps λ m w.
        Leaves-bind (Leaves-any (process_exception m.trap_processor m.csr t)) (λ _ _. leaves w)

  raise_if-Keeps : (t : Option Trap) → Keeps {D = D} (raise_if t)
  unfolding raise_if
  raise_if-Keeps none = search (step)
  raise_if-Keeps (some t) = raise-Keeps t

-- The FS field of the status is 0: floating point is off.
abbrev pub IsFloatingOff : {D : Type 0} → Machine D → Type 0
IsFloatingOff m = get_member Status.fs m.csr.status ≡ 0

off-read_status :
    (c : Csr) (s : ℕ)
    → get_member Status.fs c.status ≡ 0
    → read_status c ≡ ok s
    → get_member Status.fs s ≡ 0
off-read_status c s off h =
    get_member-field Status.fs s
    ∙ read_status-field c Status.fs s fs-IsWritable h
    ∙ sym (get_member-field Status.fs c.status)
    ∙ off

is_fp_enabled_of :
    {D : Type 0} (m : Machine D) (o : Outcome ℕ)
    → ((s : ℕ) → o ≡ ok s → get_member Status.fs s ≡ 0)
    → Leaves
        (λ r. r ≡ (false, m))
        ((lift o >>= λ status. pure (not (get_member Status.fs status == 0))) m)
unfolding lift ◌>>=◌
is_fp_enabled_of m (ok s) h = rw (h s refl) (leaves refl)
is_fp_enabled_of m throws h = leaves_throws
is_fp_enabled_of m undefined h = leaves_undefined

is_fp_enabled-off :
    {D : Type 0} (m : Machine D) → IsFloatingOff m → Leaves (λ r. r ≡ (false, m)) (is_fp_enabled m)
unfolding is_fp_enabled get_csr ◌>>=◌
is_fp_enabled-off m off =
    is_fp_enabled_of m (read_status m.csr) (λ s h. off-read_status m.csr s off h)

module _ {D : Type 0} ⦃io : Io D⦄ where
  pre_check_trap_fp-off :
      (o : Op) (pc insn : ℕ) (m : Machine D)
      → IsFloatingOff m
      → Leaves
          (λ r. r ≡ (some (make_illegal_instruction_exception pc insn), m))
          (pre_check_trap_fp o pc insn m)
  unfolding pre_check_trap_fp ◌>>=◌
  pre_check_trap_fp-off o pc insn m off =
      Leaves-bind (is_fp_enabled-off m off) (λ r e. rw e (leaves refl))

  -- Where floating point is off, the check refuses every op of the F and D classes.
  pre_check_trap-off :
      (c : OpClass) (o : Op) (pc insn : ℕ) (m : Machine D)
      → is_floating c ≡ true
      → IsFloatingOff m
      → Leaves
          (λ r. r ≡ (some (make_illegal_instruction_exception pc insn), m))
          (pre_check_trap_class c o pc insn m)
  unfolding pre_check_trap_class
  pre_check_trap-off OpClass.rv32f o pc insn m f off = pre_check_trap_fp-off o pc insn m off
  pre_check_trap-off OpClass.rv32d o pc insn m f off = pre_check_trap_fp-off o pc insn m off
  pre_check_trap-off OpClass.rv64f o pc insn m f off = pre_check_trap_fp-off o pc insn m off
  pre_check_trap-off OpClass.rv64d o pc insn m f off = pre_check_trap_fp-off o pc insn m off
  pre_check_trap-off _ o pc insn m f off = cc

-- A step that leaves a whole machine if it returns, from `m`.
abbrev KeepsAt : {D A : Type 0} → E D A → Machine D → Type 0
KeepsAt c m = Leaves (λ r. IsMachine r.1) (c m)

if-KeepsAt :
    {D A : Type 0} (b : Bool) (c d : E D A) (m : Machine D)
    → KeepsAt c m
    → KeepsAt d m
    → KeepsAt (if b then c else d) m
if-KeepsAt true c d m h k = h
if-KeepsAt false c d m h k = k

module _ {D : Type 0} ⦃io : Io D⦄ ⦃wide : Wide⦄ ⦃floating : Floating D⦄ where
  execute-Keeps :
      (o : Op) (insn pc : ℕ) → is_floating o.op_class ≡ false → Keeps {D = D} (execute o insn pc)
  unfolding execute
  execute-Keeps o insn pc h =
      search (step, process_op-Keeps, post_check_trap-Keeps, raise_if-Keeps) depth 20

  execute_unless-Keeps :
      (o : Op) (insn pc : ℕ) (t : Option Trap)
      → is_floating o.op_class ≡ false
      → Keeps {D = D} (execute_unless o insn pc t)
  unfolding execute_unless
  execute_unless-Keeps o insn pc none h = execute-Keeps o insn pc h
  execute_unless-Keeps o insn pc (some t) h = raise-Keeps t

  execute_checked-Keeps :
      (o : Op) (insn pc : ℕ)
      → is_floating o.op_class ≡ false
      → Keeps {D = D} (execute_checked o insn pc)
  unfolding execute_checked
  execute_checked-Keeps o insn pc h = search (step, pre_check_trap-Keeps, execute_unless-Keeps)

  execute_checked-off :
      (o : Op) (insn pc : ℕ) (m : Machine D)
      → IsMachine m
      → IsFloatingOff m
      → KeepsAt (execute_checked o insn pc) m
  unfolding execute_checked ◌>>=◌ pre_check_trap execute_unless
  execute_checked-off o insn pc m w off = elim (Bool-cases (is_floating o.op_class)) [
    | inl f ↦
        Leaves-bind (pre_check_trap-off o.op_class o pc insn m f off)
          (λ r e. rw e (Keeps-run (raise-Keeps (make_illegal_instruction_exception pc insn)) m w))
    | inr f ↦ Keeps-run (execute_checked-Keeps o insn pc f) m w
  ]

  process_insn-off :
      (x : Xlen) (insn pc : ℕ) (m : Machine D)
      → IsMachine m
      → IsFloatingOff m
      → KeepsAt (process_insn x insn pc) m
  unfolding process_insn ◌>>=◌ lift
  process_insn-off x insn pc m w off =
      Leaves-bind
        (Leaves-bind {Q = λ r. r.1 ≡ m} (Leaves-any (decode32 x insn)) (λ _ _. leaves refl))
        (λ r e. rw e (
          if-KeepsAt (is_unknown r.0.op_code) _ _ m
            (Keeps-run (raise-Keeps (make_illegal_instruction_exception pc insn)) m w)
            (execute_checked-off r.0 insn pc m w off)))

-- The update of the interrupt controller writes the pending interrupts alone.
update-status :
    (sources : Sources) (i : InterruptController) (c : Csr)
    → Leaves (λ u. u.csr.status ≡ c.status) (update sources i c)
unfolding update update_csr write_interrupt_pending
update-status sources i c =
    Leaves-bind
      (Leaves-bind {Q = λ d. d.status ≡ c.status} (Leaves-any (read_u32 c Addr.mideleg))
        (λ _ _. Leaves-bind (Leaves-any (read_u32 c Addr.sideleg)) (λ _ _. leaves refl)))
      (λ d same. Leaves-bind (Leaves-any (read_status d)) (λ s _.
        Leaves-bind (Leaves-any (interrupts_enabled d.privilege_level s)) (λ _ _. leaves same)))

-- A processor whose register file has 32 entries, the first of which is 0.
abbrev pub IsProcessor : {D : Type 0} → Processor D → Type 0
IsProcessor p = IsMachine p.machine

module _ {D : Type 0} ⦃io : Io D⦄ ⦃wide : Wide⦄ ⦃floating : Floating D⦄ where
  after_fetch-IsProcessor :
      (p : Processor D) (pc : ℕ) (l : PrivilegeLevel) (f : Fetched) (m : Machine D)
      → IsMachine m
      → IsFloatingOff m
      → Leaves IsProcessor (after_fetch p pc l f m)
  unfolding after_fetch with_machine set_op_event
  after_fetch-IsProcessor p pc l (fetch_trap t) m w off =
      Leaves-bind (Keeps-run (raise-Keeps t) m w) (λ r v. leaves v)
  after_fetch-IsProcessor p pc l (fetched insn) m w off =
      Leaves-bind (process_insn-off p.xlen insn pc m w off) (λ r v. leaves v)

  run_or_interrupt-IsProcessor :
      (p : Processor D) (pc : ℕ) (l : PrivilegeLevel)
      → IsProcessor p
      → IsFloatingOff p.machine
      → Leaves IsProcessor (run_or_interrupt p pc l)
  unfolding run_or_interrupt run_instruction take_interrupt with_machine set_op_event
  run_or_interrupt-IsProcessor p pc l w off =
      Leaves-if p.interrupt_controller.is_requested
        (Leaves-bind
          (Leaves-any (
            process_interrupt p.machine.trap_processor p.machine.csr
              p.interrupt_controller.interrupt_type pc))
          (λ _ _. leaves w))
        (Leaves-bind (Fetches-run (fetch-Fetches pc) p.machine) (λ r same.
          after_fetch-IsProcessor p pc l r.0 r.1 (rw same.1 w)
            (ap (λ (c : Csr). get_member Status.fs c.status) same.0 ∙ off)))

  -- From a register file with 32 entries and 0 in x0, and with the FS field of the status at 0, so
  -- that floating point is off, a cycle that returns leaves such a register file, whatever the
  -- instruction, the trap or the interrupt was.
  pub process_cycle-IsProcessor :
      (sources : Sources) (p : Processor D)
      → IsFloatingOff p.machine
      → IsProcessor p
      → Leaves IsProcessor (process_cycle sources p)
  unfolding process_cycle update_interrupts begin_cycle with_machine clear_op_event
      Csr.process_cycle
  process_cycle-IsProcessor sources p off w =
      Leaves-bind
        (Leaves-bind {Q = λ r. IsProcessor r × IsFloatingOff r.machine}
          (update-status sources p.interrupt_controller _)
          (λ u same. leaves (w, ap (get_member Status.fs) same ∙ off)))
        (λ r h. run_or_interrupt-IsProcessor r _ _ h.0 h.1)
