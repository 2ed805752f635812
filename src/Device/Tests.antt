-- ===== src/Device/Tests.antt =====
-- The translations at addresses of an H618: memory from 1 GiB, the encoder in units of 256 bytes.
use h618_vpu_port.Device.Dma.{Device}

abbrev h618 : Device
h618 = record { capabilities = 0; dma_offset = 0x40000000; enc_addr_shift = 8 }
