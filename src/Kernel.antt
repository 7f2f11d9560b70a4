-- ===== src/Kernel.antt =====
-- The kernel: Segundo tp/kernel/src.
pub mod Heap
pub mod Archivos
pub mod Colas
pub mod Compartidas
mod Tests
