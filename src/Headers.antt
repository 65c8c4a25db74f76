-- ===== src/Headers.antt =====
-- The header store of proxy_parse.c: the ParsedHeader functions.
pub mod Text
pub mod Store
pub mod Parse
pub mod Laws
pub mod Setting
pub mod RoundTrip
