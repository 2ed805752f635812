-- ===== src/Legacy.antt =====
-- legacy-driver/cedar_ve.c and ve_mem_list.h: the driver of the vendor's interface.
pub mod MemList
pub mod Buffers
pub mod Engine
pub mod Coherent
pub mod Tests
