-- ===== src/Watcher.antt =====
-- internal/watcher: the assembly watchdog, and the tails of ffmpeg's segment list and playlist.
pub mod AssemblyWatchdog
pub mod Tail
