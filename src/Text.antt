-- ===== src/Text.antt =====
-- The text routines of source/NativeLib/my.cpp. A text is a list of code units that holds its
-- terminator, and a pointer into it is the list from there on; a read past the list is a fault.
pub mod CmdLine
pub mod Numbers
pub mod Strings
pub mod Compare
pub mod Words
pub mod Case
pub mod Paths
