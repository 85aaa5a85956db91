-- ===== src/Common.antt =====
-- common.h, common.c and the string functions of the C library that the program calls. A C string
-- is the list of its bytes, all but 0, without the terminating NUL.
pub mod Strings
pub mod Names
