-- ===== src/Alloc.antt =====
-- hw3: a memory allocator with segregated free lists.
pub mod Memory
pub mod Keeps
pub mod Free
pub mod Malloc
pub mod Pages
pub mod Given
pub mod Realloc
mod Tests
mod MallocTests
