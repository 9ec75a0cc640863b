-- ===== src/Task/Safety.antt =====
-- What a task may touch: memory only where it is RAM, flash only at whole sectors and pages.
pub mod Rules
pub mod Steps
pub mod Transfer
