-- ===== src/RvCsr.antt =====
-- include/rafi/common/RvCsr.h: the addresses of the control and status registers, and their fields.
pub mod Addr
pub mod Misa
pub mod Fcsr
pub mod Status
pub mod Tvec
pub mod Ip
pub mod Ie
pub mod Satp
