-- ===== src/Watcher/Tail.antt =====
-- segment_watch.go and hls_watch.go: the files that ffmpeg appends to, read again and again. The names
-- of files, spaces and decimal numbers belong to Go's library.
mod Readings
mod Segments
mod Fragments
mod Growth
mod Events
mod Once
mod Playlist
mod Written
pub use Readings.*
unfoldable pub use Segments.*
pub use Events.*
pub use Once.*
pub use Playlist.*
pub use Written.*
unfoldable pub use Fragments.*
