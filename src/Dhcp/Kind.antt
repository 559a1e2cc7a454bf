-- ===== src/Dhcp/Kind.antt =====
-- router/router/dhcp.h: the DHCP message types.
use hc.Base.{ℕ}

abbrev pub discover : ℕ
discover = 1

abbrev pub offer : ℕ
offer = 2

abbrev pub request : ℕ
request = 3

abbrev pub ack : ℕ
ack = 5

abbrev pub nak : ℕ
nak = 6
