-- ===== src/Frisk.antt =====
-- cli/bio-frisk-brr.c, which checks a stream of blob request records.
pub mod Scan
pub mod Fields
pub mod Stream
pub mod ScanSet
pub mod Chats
pub mod Records
