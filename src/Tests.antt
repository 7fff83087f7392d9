-- ===== src/Tests.antt =====
-- Tests and witnesses.
mod HashList
mod Linker
mod Logging
mod Codegen
mod Boot
mod Xa
mod Signal
mod Convert
mod Calls
mod Exceptions
mod Server
mod Ubf
