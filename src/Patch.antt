-- ===== src/Patch.antt =====
-- The namespace `Mp` of source/NativeLib/my.cpp, which replaces functions in memory, in its 32-bit
-- build. Memory is a function from addresses to bytes; an address or a displacement is a 32-bit word.
pub mod Memory
pub mod Code
pub mod Copy
pub mod Walk
pub mod Manager
