-- ===== src/Ario.antt =====
-- src/ario/: the event loop's library, as far as it is modelled.
pub mod Memory
pub mod Timers
