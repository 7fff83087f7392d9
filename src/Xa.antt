-- ===== src/Xa.antt =====
-- The XA switch over Java data sources, libsrc/c/xaj.c, with the conversion of transaction ids
-- (libsrc/c/util.c, libsrc/java/org/endurox/ExXid.java) and the context of a thread (xatmsrv.c).
pub mod Xid
pub mod Entry
pub mod Config
