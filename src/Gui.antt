-- ===== src/Gui.antt =====
-- source/FVPLoaderGui: the program that starts the game.
pub mod LogFile
pub mod Startup
