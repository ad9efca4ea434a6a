-- ===== src/PriorityQueue.antt =====
-- src/priority_queue.c: `priorq_t`. An element is a value of `A`, the comparator is an argument, and
-- `obj` is the state that the callback `reloc` changes. A slot of the storage that nothing has been
-- written to is `none`; reading it, and an index outside of the storage, is `none` as a result.
pub mod Model
pub mod Slots
pub mod Holes
pub mod Room
pub mod Raise
pub mod Lower
pub mod Valid
pub mod Takes
pub mod Remove
pub mod Adds
mod Tests
