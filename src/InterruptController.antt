-- ===== src/InterruptController.antt =====
-- src/rafi-emu/cpu/InterruptController.h and InterruptController.cpp. The registered sources are
-- objects of other files; what their `IsRequested` returns at the time of the call is an argument.
pub mod Priority
pub mod Pending
pub mod Request
use rafi_emu.Common.{
  ℕ, ◌+◌, ◌/◌, ◌^◌, Bool, true, false, ◌==◌, ◌&&◌, is_set, if◌then◌else◌, Outcome, ok, throws,
  ◌>>=◌, Option, none, some,
}
use rafi_emu.BitField.{Member, get_member, set_member}
use rafi_emu.RvTypes.{
  PrivilegeLevel, user, supervisor, reserved, machine, InterruptType, user_software,
  supervisor_software, machine_software, user_timer, supervisor_timer, machine_timer, user_external,
  supervisor_external, machine_external, interrupt_code,
}
use rafi_emu.RvCsr.Addr
use rafi_emu.RvCsr.Status
use rafi_emu.RvCsr.Ip
use rafi_emu.RvCsr.Ie
use rafi_emu.Csr.{Csr, read_status, write_interrupt_pending}
use rafi_emu.Csr.Read.{read_u32}

pub record Sources : Type 0 where
  pub timer : Bool
  pub external : Bool

pub record InterruptController : Type 0 where
  pub is_requested : Bool
  pub interrupt_type : InterruptType

-- `pending.SetMember<f>(0)` for the three bits of a group, in the order of the source.
abbrev clear_three : Member → Member → Member → ℕ → ℕ
clear_three m s u pending = set_member 64 u (set_member 64 s (set_member 64 m pending 0) 0) 0

-- The timer block of `UpdateCsr`.
unfoldable pub update_timer : Bool → ℕ → ℕ → ℕ → ℕ
update_timer requested mideleg sideleg pending =
    let cleared = clear_three Ip.mtip Ip.stip Ip.utip pending in
    if requested
    then (if mideleg / 2 ^ interrupt_code machine_timer == 0
        then set_member 64 Ip.mtip cleared 1
        else if sideleg / 2 ^ interrupt_code supervisor_timer == 0
        then set_member 64 Ip.stip cleared 1
        else set_member 64 Ip.utip cleared 1)
    else cleared

-- The external block of `UpdateCsr`.
unfoldable pub update_external : Bool → ℕ → ℕ → ℕ → ℕ
update_external requested mideleg sideleg pending =
    let cleared = clear_three Ip.meip Ip.seip Ip.ueip pending in
    if requested
    then (if mideleg / 2 ^ interrupt_code machine_external == 0
        then set_member 64 Ip.meip cleared 1
        else if sideleg / 2 ^ interrupt_code supervisor_external == 0
        then set_member 64 Ip.seip cleared 1
        else set_member 64 Ip.ueip cleared 1)
    else cleared

-- `UpdateCsr`. Both blocks ask the timer source.
unfoldable pub update_csr : Sources → Csr → Outcome Csr
update_csr sources c = do
  mideleg ← read_u32 c Addr.mideleg
  sideleg ← read_u32 c Addr.sideleg
  let timed = update_timer sources.timer mideleg sideleg c.interrupt_pending
  let pending = update_external sources.timer mideleg sideleg timed
  ok (write_interrupt_pending c pending)

abbrev active : Member → ℕ → Member → ℕ → Bool
active e ie p ip = is_set (get_member e ie) && is_set (get_member p ip)

-- The nine tests of `Update` below the check of xIE, in their order.
unfoldable pub find_interrupt : ℕ → ℕ → Option InterruptType
find_interrupt ie ip =
    if active Ie.meie ie Ip.meip ip
    then some machine_external
    else if active Ie.mtie ie Ip.mtip ip
    then some machine_timer
    else if active Ie.msie ie Ip.msip ip
    then some machine_software
    else if active Ie.seie ie Ip.seip ip
    then some supervisor_external
    else if active Ie.stie ie Ip.stip ip
    then some supervisor_timer
    else if active Ie.ssie ie Ip.ssip ip
    then some supervisor_software
    else if active Ie.ueie ie Ip.ueip ip
    then some user_external
    else if active Ie.utie ie Ip.utip ip
    then some user_timer
    else if active Ie.usie ie Ip.usip ip
    then some user_software
    else none

-- The `switch (m_pCsr->GetPrivilegeLevel())`: whether xIE lets interrupts through.
unfoldable pub interrupts_enabled : PrivilegeLevel → ℕ → Outcome Bool
interrupts_enabled machine status = ok (is_set (get_member Status.mie status))
interrupts_enabled supervisor status = ok (is_set (get_member Status.sie status))
interrupts_enabled user status = ok (is_set (get_member Status.uie status))
interrupts_enabled reserved status = throws

request : Option InterruptType → InterruptController → InterruptController
request none i = record i { is_requested = false }
request (some t) i = record { is_requested = true; interrupt_type = t }

-- What `Update` leaves behind.
pub record Updated : Type 0 where
  pub controller : InterruptController
  pub csr : Csr

unfoldable pub update : Sources → InterruptController → Csr → Outcome Updated
unfolding request
update sources i c = do
  c ← update_csr sources c
  status ← read_status c
  enabled ← interrupts_enabled c.privilege_level status
  let found = if enabled then find_interrupt c.interrupt_enable c.interrupt_pending else none
  ok (record { controller = request found i; csr = c })
