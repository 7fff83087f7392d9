-- ===== src/Boot.antt =====
-- The boot library, libexjlds/.
pub mod Index
pub mod Jni
pub mod Handler
pub mod ClassPath
pub mod Vm
pub mod FindClass
