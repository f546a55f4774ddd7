-- ===== src/Machine.antt =====
-- The C machine under the library: a run that may be undefined, the type `int` (32 bits), and the
-- memory functions of <string.h> on a block of bytes. A block is the list of the bytes that the
-- program owns; an access outside it, like a signed overflow, is undefined behaviour: a `fault`.
pub mod Defs
pub mod Laws
