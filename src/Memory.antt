-- ===== src/Memory.antt =====
-- Who owns the memory of a parsed request: proxy_parse.c with its calls of malloc, realloc and free.
pub mod Blocks
pub mod Headers
pub mod HeaderLaws
pub mod SetLaws
pub mod LineLaws
pub mod Request
pub mod DestroyLaws
pub mod RequestLaws
pub mod ParseLaws
pub mod Lost
