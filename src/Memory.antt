-- ===== src/Memory.antt =====
-- The memory system: bytes (include/memory/host.h), physical addresses (memory/paddr.c), devices
-- (device/io/map.c, device/io/mmio.c) and the queue of committed stores (memory/paddr.c).
pub mod Host
pub mod Mmio
pub mod Paddr
pub mod StoreQueue
