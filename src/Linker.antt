-- ===== src/Linker.antt =====
-- The linker, exjld/: the walk over the extracted files, the hashes of resources, the generated
-- program and the main function.
pub mod Entry
pub mod Resources
pub mod Settings
pub mod Codegen
pub mod Options
pub mod Main
