-- ===== src/Graphics.antt =====
-- graphics/: from fast-path PDUs of the server to the pixels of the desktop.
pub mod Fastpath
pub mod Framebuffer
pub mod Rle
pub mod Planar
pub mod Bitmap
pub mod Pointer
pub mod Display
