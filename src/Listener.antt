-- ===== src/Listener.antt =====
-- src/listener.rs: the trait as a record; the retry loop around `accept` with its backoff, the
-- socket options and `TapIo` are in the children.
pub mod Backoff
pub mod Trait
pub mod Tcp
pub mod Tap
