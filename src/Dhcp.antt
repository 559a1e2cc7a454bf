-- ===== src/Dhcp.antt =====
-- router/router/dhcp.h: option codes, message types and the layout of a message. The children are
-- the walk over a message's options, the server and the client.
pub mod Code
pub mod Kind
pub mod At
pub mod Options
pub mod Server
pub mod Client
pub mod Interop
use hc.Base.{ℕ}

-- BOOTP message types and the hardware type.
abbrev pub boot_request : ℕ
boot_request = 1

abbrev pub boot_reply : ℕ
boot_reply = 2

abbrev pub ethernet : ℕ
ethernet = 1

abbrev pub magic_cookie : ℕ
magic_cookie = 0x63538263
