-- ===== src/Gdi.antt =====
-- The hooks of GDI, of source/FVPKernel/Gdi32Hook.cpp.
pub mod NameTable
pub mod SystemCall
pub mod StockFonts
pub mod FontNames
pub mod Metrics
pub mod Enumeration
