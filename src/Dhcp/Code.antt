-- ===== src/Dhcp/Code.antt =====
-- router/router/dhcp.h: the option codes.
use hc.Base.{ℕ}

abbrev pub subnet_mask : ℕ
subnet_mask = 1

abbrev pub router : ℕ
router = 3

abbrev pub dns : ℕ
dns = 6

abbrev pub requested_ip_address : ℕ
requested_ip_address = 50

abbrev pub lease_time : ℕ
lease_time = 51

abbrev pub message_type : ℕ
message_type = 53

abbrev pub server_identifier : ℕ
server_identifier = 54

abbrev pub param_request_list : ℕ
param_request_list = 55

abbrev pub end_mark : ℕ
end_mark = 255
