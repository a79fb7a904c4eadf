-- ===== src/Guarantee.antt =====
-- lcmux/src/guarantee_bound.rs and lcmux/src/guarantee_cell.rs: the guarantees that a client may
-- still use, and the task that waits for some of them.
pub mod TakeCell
pub mod Bound
pub mod Cell
pub mod Unbounded
