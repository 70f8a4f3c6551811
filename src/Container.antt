-- ===== src/Container.antt =====
-- The containers of NativeLib.
pub mod Prime
pub mod HashTable
pub mod Hash
pub mod GrowableArray
