-- ===== src/Lib.antt =====
-- FVPLoader starts a game of the FVP engine under another code page: the program FVPLoaderGui asks
-- for the executable, keeps the choice in FVPLOG.ini, and starts the game with the library FVPKernel,
-- which replaces functions of the system. Both stand on NativeLib, a library of containers, files,
-- texts and patches. The development models these parts of it:
--
-- Container.HashTable is HashTableT of source/NativeLib/my.h, the cache of font metrics of
-- FVPKernel. AddElement is add_element, which calls increase_capacity and place; LookupEntry is
-- probe under lookup_entry. Container.Prime has GetTableSize, Container.Hash has Initialize,
-- HashData and HashString.
-- Container.GrowableArray is GrowableArray of source/NativeLib/my.h.
-- File is NtFileDisk of source/NativeLib/my.cpp. The system's calls are the parameter NtIo, and
-- File.Laws says what is relied on of them.
-- Gui.LogFile is ReadLogFile and WriteLogFile of source/FVPLoaderGui/FVPLoaderGui.cpp, on File.
-- Text.CmdLine is CmdLineToArgvW and its worker, Text.Numbers is StringToInt32A and its family, of
-- source/NativeLib/my.cpp.
--
-- Text.Strings has StrLengthW, StrFindCharW, StrFindLastCharW, PeekLineW, IsShiftJISChar and
-- IsShiftJISString of that file, and Text.Compare has StrNICompareW. Gdi.SystemCall is IsSystemCall,
-- and Gdi.NameTable is GetNameRecordFromNameTable, of source/FVPKernel/Gdi32Hook.cpp.
--
-- Patch is the namespace Mp of source/NativeLib/my.cpp and my.h, in the 32-bit build: Patch.Memory has
-- bytes in memory and a decoder of jumps, with which theorems say where code goes; Patch.Code the code
-- that is generated; Patch.Copy CopyOneOpCode and CopyTrampolineStub; Patch.Walk GetHookAddressAndSize;
-- Patch.Manager the class MemoryPatchManager, with HandleFunctionPatch in Patch.Manager.Function. The
-- length disassembler behind GetOpCodeSize, Mm::ProtectMemory and the heap are parameters.
-- Gui.Startup is wWinMain, VMeCreateProcess and the dropped files of WndProc, over Gui.LogFile and the
-- system's calls on processes and windows, which are the parameter Desktop.
-- Gdi.Enumeration is the enumeration of fonts of source/FVPKernel/Gdi32Hook.cpp: AdjustFontData,
-- LeEnumFontCallbackW and LeEnumFontCallbackAFromW, on Container.HashTable for the cache of text
-- metrics and on Gdi.NameTable and Gdi.FontNames for the names. The calls of GDI are the parameter
-- Gdi, and Gdi.Enumeration.Released says what is relied on of them. Gdi.Metrics is
-- TEXT_METRIC_INTERNAL of source/FVPKernel/FVPKernel.h.
-- Kernel.Menus is HookSetMenuItemInfoA of source/FVPKernel/FVPKernel.cpp.
-- Image is IsValidImage, Image.Exports is EATLookupRoutineByHashNoFix and its variants, by which the
-- loader finds functions of the system, and Image.Imports is IATLookupRoutineByEntryNoFix, of
-- source/NativeLib/my.cpp.
-- Image.Relocation is ProcessOneRelocate of that file; its fuel is one more than the bytes of the
-- relocations, and a block has eight at least.
-- Text.Paths is findextw and findnamew, Text.Paths.Narrow findexta and findnamea, and Text.Case is StringUpperA and StringLowerA, of
-- source/NativeLib/my.cpp.
-- Text.Words has StrLengthA, StrCopyA, StrCopyW and StrConcatenateA of source/NativeLib/my.cpp.
-- Gdi.StockFonts is LeGetStockObject, LeDeleteObject and GetFontFromFont of source/FVPKernel/Gdi32Hook.cpp.
-- Kernel.Start has which functions Initialize and HookGdi32Routines replace, over Patch.Manager.
-- Kernel.Windows has the hooks on window classes, windows and messages of
-- source/FVPKernel/FVPKernel.cpp; Kernel.Windows.Desk has the steps of a game and the system on them.
--
-- Numbers of 32 and 64 bits wrap where the code lets them. A read or a write outside of memory, or
-- through a null pointer, is `none`. Fuel: LookupEntry comes back to its start after as many rounds as
-- there are slots; AddElement calls itself through IncreaseCapacity, and two levels are enough;
-- CmdLineToArgvW takes at least one unit in each round; the search for a prime has its fuel as an
-- argument, and `none` when it runs out; GetHookAddressAndSize needs more fuel than the hook has bytes
-- and jumps lead on from the function, and CopyTrampolineStub more than there are bytes to copy.
--
-- The list of trampolines is taken to have memory, and the count of entries of a hash table not to reach
-- 2 ^ 32.
--
-- Not modelled: the other functions of FVPKernel, the drawing of the window of FVPLoaderGui, the
-- injection into the game's process, the 64-bit build of the patches, and the wrappers of system
-- calls in NativeLib, which are code for the system's interfaces; the headers of the native API, which are declarations.
pub mod Prelude
pub mod Container
pub mod File
pub mod Gui
pub mod Image
pub mod Text
pub mod Tests
pub mod Gdi
pub mod Patch
pub mod Kernel
