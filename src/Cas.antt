-- ===== src/Cas.antt =====
-- storage/cas.go: the conditional operations.
pub mod Lifetime
pub mod State
pub mod Io
pub mod Put
pub mod Delete
pub mod Get
pub mod Echo
pub mod Overtaken
pub mod Agree
pub mod Alone
pub mod AloneDelete
pub mod Spill
