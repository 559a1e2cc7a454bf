-- ===== src/Dhcp/Server.antt =====
-- router/router/dhcpServer.c: the lease table and the handler of a received message. The sockets
-- that `dhcpServer_init` opens are not modelled; the clock's seconds are an argument, and what is
-- sent is a result.
pub mod Table
mod Distinct
mod Replies
mod Tests
use hc.Base.{
  ℕ, zero, suc, ◌+◌, ◌-◌, ◌*◌, ◌/◌, ◌%◌, ◌^◌, ◌==◌, ltb, if◌then◌else◌, Bool, true, false, not,
  ◌&&◌, ◌||◌, List, [], ◌∷◌, ◌++◌, Option, none, some, byte_at, window, word_at, word_bytes, set,
  replicate, take,
}
use hc.Dhcp.Code
use hc.Dhcp.Kind
use hc.Dhcp.At
use hc.Dhcp.{boot_reply, ethernet, magic_cookie}
use hc.Dhcp.Options.{find_message_type}

abbrev pub first_octet : ℕ
first_octet = 40

abbrev pub num_entries : ℕ
num_entries = 255 - first_octet

-- `struct dhcpServer_entry`; `time_sec` is 0 if unused.
pub record Entry : Type 0 where
  pub time_sec : ℕ
  pub mac_addr : List ℕ

-- `mem_compare(a, b, n) == 0`
unfoldable pub same_bytes : List ℕ → List ℕ → Bool
same_bytes [] [] = true
same_bytes (l ∷ left) (r ∷ right) = l == r && same_bytes left right
same_bytes _ _ = false

-- What the scan of the table ends with: the entry of the address, or the oldest of all.
pub data Scan : Type 0 where
  hit : ℕ → Scan
  oldest : ℕ → Scan

-- The loop of `dhcpServer_getEntry` from index `i` on: `entry` is `self->entries[i]`, `entries`
-- what stands behind it.
pub scan : List ℕ → ℕ → Entry → List Entry → ℕ → ℕ → Scan
scan mac i entry [] oldest_index oldest_time =
    if same_bytes mac entry.mac_addr then hit i else oldest oldest_index
scan mac i entry (e ∷ entries) oldest_index oldest_time =
    let older = ltb e.time_sec oldest_time in
    let go =
      scan mac (i + 1) e entries (if older then i + 1 else oldest_index)
        (if older then e.time_sec else oldest_time) in
    if same_bytes mac entry.mac_addr then hit i else go

-- `self->entries[i].timeSec = now`
pub refresh : ℕ → ℕ → List Entry → List Entry
refresh now i [] = []
refresh now zero (e ∷ entries) = record e { time_sec = now } ∷ entries
refresh now (suc i) (e ∷ entries) = e ∷ refresh now i entries

-- `dhcpServer_getEntry`; `none` is -1. The table has `num_entries` entries, so it is not empty.
pub get_entry : List Entry → List ℕ → Bool → ℕ → Option ℕ × List Entry
unfolding scan refresh
get_entry [] mac allow_create now = (none, [])
get_entry (e ∷ entries) mac allow_create now = elim (scan mac 0 e entries 0 e.time_sec) [
  | hit i ↦ (some i, refresh now i (e ∷ entries))
  | oldest i ↦
      if allow_create
      then (some i, set (e ∷ entries) i (record { time_sec = now; mac_addr = mac }))
      else (none, e ∷ entries)
]

-- The server's state, without its descriptors: `server_ip` are the bytes of `serverIp`.
pub record Server : Type 0 where
  pub server_ip : List ℕ
  pub entries : List Entry

-- The fields of `struct reply` that are not constant.
pub record Reply : Type 0 where
  pub identifier : List ℕ
  pub your_ip : List ℕ
  pub client_hw_addr : List ℕ
  pub message_type : ℕ
  pub server_ip : List ℕ
  pub dns : List ℕ

-- `replyMsg` in memory: the header, then the options in the order of the struct.
unfoldable pub reply_bytes : Reply → List ℕ
reply_bytes r =
    (boot_reply ∷ ethernet ∷ 6 ∷ 0 ∷ r.identifier)
    ++ (replicate 8 0
        ++ (r.your_ip
            ++ (r.server_ip
                ++ (replicate 4 0
                    ++ (r.client_hw_addr
                        ++ (replicate 202 0
                            ++ (word_bytes magic_cookie
                                ++ ((Code.message_type ∷ 1 ∷ r.message_type ∷ [])
                                    ++ ((Code.server_identifier ∷ 4 ∷ r.server_ip)
                                        ++ ((Code.subnet_mask ∷ 4 ∷ 255 ∷ 255 ∷ 255 ∷ 0 ∷ [])
                                            ++ ((Code.router ∷ 4 ∷ r.server_ip)
                                                ++ ((Code.lease_time ∷ 4 ∷ 0 ∷ 0 ∷ 2 ∷ 88 ∷ [])
                                                    ++ ((Code.dns ∷ 4 ∷ r.dns)
                                                        ++ (Code.end_mark ∷ 0 ∷ 0 ∷ []))))))))))))))

-- A datagram to port 68: the reply and `destAddr.sin_addr`.
pub record Datagram : Type 0 where
  pub reply : Reply
  pub dest_addr : List ℕ

-- The reply for table entry `index`; `wan_dns` is `wanDhcpClient.dnsIp`.
pub make_reply : Server → List ℕ → ℕ → Bool → ℕ → Datagram
unfolding same_bytes
make_reply s buffer wan_dns is_discover index =
    let your_ip = take 3 s.server_ip ++ ((first_octet + index) % 2 ^ 8 ∷ []) in
    record {
      reply = record {
        identifier = window buffer At.identifier 4;
        your_ip = your_ip;
        client_hw_addr = window buffer At.client_hw_addr 6;
        message_type = if is_discover then Kind.offer else Kind.ack;
        server_ip = s.server_ip;
        dns = if wan_dns == 0 then 8 ∷ 8 ∷ 8 ∷ 8 ∷ [] else word_bytes wan_dns;
      };
      dest_addr =
          if same_bytes (window buffer At.client_ip 4) your_ip
          then your_ip
          else 255 ∷ 255 ∷ 255 ∷ 255 ∷ [];
    }

-- `dhcpServer_onFd` on a message of a given kind.
pub serve : Server → List ℕ → ℕ → ℕ → ℕ → Server × Option Datagram
serve s buffer now wan_dns kind =
    let is_discover = kind == Kind.discover in
    let found = get_entry s.entries (window buffer At.client_hw_addr 6) is_discover now in
    if not is_discover && not (kind == Kind.request) then (s, none) else elim (found.0) [
      | none ↦ (record s { entries = found.1 }, none)
      | some index ↦
          (record s { entries = found.1 }, some (make_reply s buffer wan_dns is_discover index))
    ]

-- `dhcpServer_onFd` for the `num_read` bytes at the start of `buffer`.
pub on_fd : Server → List ℕ → ℕ → ℕ → ℕ → Server × Option Datagram
on_fd s buffer num_read now wan_dns =
    if ltb num_read At.options
    then (s, none)
    else elim (find_message_type (suc num_read) buffer num_read At.options none) [
      | none ↦ (s, none)
      | some o ↦ serve s buffer now wan_dns (byte_at buffer (o + 2))
    ]
