-- ===== src/Dhcp/At.antt =====
-- router/router/dhcp.h: offsets in `struct dhcp_header`, and its size.
use hc.Base.{ℕ}

abbrev pub identifier : ℕ
identifier = 4

abbrev pub client_ip : ℕ
client_ip = 12

abbrev pub your_ip : ℕ
your_ip = 16

abbrev pub server_ip : ℕ
server_ip = 20

abbrev pub client_hw_addr : ℕ
client_hw_addr = 28

abbrev pub options : ℕ
options = 240
