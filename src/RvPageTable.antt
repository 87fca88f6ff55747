-- ===== src/RvPageTable.antt =====
-- include/rafi/common/RvPageTable.h: page table entries and addresses of Sv32, Sv39 and Sv48.
pub mod EntrySv32
pub mod EntrySv39
pub mod EntrySv48
pub mod PhysicalSv32
pub mod PhysicalSv39
pub mod PhysicalSv48
pub mod VirtualSv32
pub mod VirtualSv39
pub mod VirtualSv48
