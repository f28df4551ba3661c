-- ===== src/Kernel.antt =====
-- src/kernel: the kernels of the executor.
pub mod Leapfrog
