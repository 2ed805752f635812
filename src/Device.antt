-- ===== src/Device.antt =====
-- cedrus-v4l2/cedrus.h and cedrus-v4l2/cedrus_regs.h: the device, its registers, and the translation
-- of DMA addresses. A run of the driver is seen by the hardware as the list of its register writes,
-- oldest first; what it reads back is an argument of the operation that reads.
pub mod Regs
pub mod Dma
pub mod Tests
