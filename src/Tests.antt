-- ===== src/Tests.antt =====
-- Runs of the definitions, and the theorems at concrete inputs.
mod Tables
mod Files
mod Texts
mod Arrays
mod Searches
mod Fonts
mod Patches
mod Starts
mod Windows
mod Stock
mod Enumerations
mod Words
mod Images
mod Paths
mod Cases
mod Menus
