-- ===== src/Sync.antt =====
-- Packets handed from the capture thread to the loop (src/sync).
pub mod Stream
pub mod BufSize
