-- ===== src/Kernel.antt =====
-- source/FVPKernel/FVPKernel.cpp: the library in the game's process.
pub mod Windows
pub mod Menus
pub mod Start
