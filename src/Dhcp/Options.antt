-- ===== src/Dhcp/Options.antt =====
-- The loops over the options of a received message: `dhcpClient_onFd` looks for five kinds,
-- `dhcpServer_onFd` for the message type. A pointer is an index into `buffer`, `limit` the number
-- of bytes received; bytes behind it are left over from before.
pub mod Bounds
pub mod Stale
mod Tests
use hc.Base.{ℕ, zero, suc, ◌+◌, ◌==◌, ltb, leb, if◌then◌else◌, List, Option, none, some, byte_at}
use hc.Dhcp.Code

-- The pointers of `dhcpClient_onFd`; `none` is a null pointer.
pub record Found : Type 0 where
  pub message_type : Option ℕ
  pub subnet_mask : Option ℕ
  pub router : Option ℕ
  pub dns : Option ℕ
  pub lease_time : Option ℕ

abbrev pub nothing_found : Found
nothing_found = record {
  message_type = none;
  subnet_mask = none;
  router = none;
  dns = none;
  lease_time = none;
}

-- `(void *)current + sizeof(*current) + current->length`
abbrev pub next_option : List ℕ → ℕ → ℕ
next_option buffer current = current + 2 + byte_at buffer (current + 1)

-- The `switch (current->code)` of the client.
unfoldable pub note_option : ℕ → ℕ → ℕ → Found → Found
note_option current code len f =
    if code == Code.message_type
    then if len == 1 then record f { message_type = some current } else f
    else if code == Code.subnet_mask
    then if len == 4 then record f { subnet_mask = some current } else f
    else if code == Code.router
    then if leb 4 len then record f { router = some current } else f
    else if code == Code.dns
    then if leb 4 len then record f { dns = some current } else f
    else if code == Code.lease_time
    then if len == 4 then record f { lease_time = some current } else f
    else f

-- The loop, with rounds left: each moves at least two bytes on.
unfoldable pub find_options : ℕ → List ℕ → ℕ → ℕ → Found → Found
find_options zero buffer limit current f = f
find_options (suc fuel) buffer limit current f =
    let rest =
      find_options fuel buffer limit (next_option buffer current)
        (note_option current (byte_at buffer current) (byte_at buffer (current + 1)) f) in
    if ltb limit (next_option buffer current) then f else rest

-- The loop of the server, which only keeps the message type.
unfoldable pub find_message_type : ℕ → List ℕ → ℕ → ℕ → Option ℕ → Option ℕ
find_message_type zero buffer limit current message_type = message_type
find_message_type (suc fuel) buffer limit current message_type =
    let noted =
      if byte_at buffer current == Code.message_type
      then if byte_at buffer (current + 1) == 1 then some current else message_type
      else message_type in
    let rest = find_message_type fuel buffer limit (next_option buffer current) noted in
    if ltb limit (next_option buffer current) then message_type else rest
