-- ===== src/Tests.antt =====
-- Concrete runs of the model, and each theorem at an input that its conditions allow.
pub mod Client
pub mod Multiboot
pub mod Remote
pub mod Wire
pub mod Files
pub mod Tree
pub mod Echo
pub mod Write
pub mod Performance
pub mod Getattr
