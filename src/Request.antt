-- ===== src/Request.antt =====
-- The request of proxy_parse.c: its line, and how it is printed with its headers.
pub mod Line
pub mod Lengths
pub mod Token
pub mod TokenLaws
pub mod Parse
pub mod Readable
pub mod LineEnd
pub mod Split
pub mod Address
pub mod Form
pub mod LineBack
pub mod RoundTrip
pub mod NoVersion
