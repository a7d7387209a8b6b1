-- ===== src/Osal.antt =====
-- The operating system layer that is the program's own code, src/linux/bitun_osal.c: the queue that
-- carries results between threads and the resolver thread.
pub mod Queue
pub mod Dns
mod Tests
