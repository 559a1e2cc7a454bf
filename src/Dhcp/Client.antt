-- ===== src/Dhcp/Client.antt =====
-- router/router/dhcpClient.c: the client's state, its timer and the handler of a received message.
-- What the handlers do to the world is a list of effects, in the order of the calls; that
-- `dhcpClient_init` opens sockets and a timer is not modelled.
mod Leases
mod Addresses
mod Tests
use hc.Base.{
  ℕ, zero, suc, ◌+◌, ◌-◌, ◌*◌, ◌/◌, ◌%◌, ◌^◌, ◌==◌, ltb, if◌then◌else◌, Bool, true, false, not,
  ◌&&◌, List, [], ◌∷◌, ◌++◌, Option, none, some, byte_at, window, word_at, word_bytes, bswap32,
  bswap16, replicate,
}
use hc.Dhcp.Code
use hc.Dhcp.Kind
use hc.Dhcp.At
use hc.Dhcp.{boot_request, ethernet, magic_cookie}
use hc.Dhcp.Options.{Found, nothing_found, find_options}
use hc.Dhcp.Server.{same_bytes}

-- `struct dhcpClient`, without its descriptors and the interface name. Addresses are the words that
-- the machine loads from their bytes; 0 means none.
pub record Client : Type 0 where
  pub dns_ip : ℕ
  pub current_identifier : ℕ
  pub leased_ip : ℕ
  pub renew_server_ip : ℕ
  pub if_index : ℕ
  pub route_priority : ℕ
  pub if_mac_address : List ℕ
  pub leased_ip_netmask : ℕ

-- What `dhcpClient_init` stores.
unfoldable pub init : ℕ → ℕ → List ℕ → Client
init if_index route_priority mac = record {
  dns_ip = 0;
  current_identifier = 0;
  leased_ip = 0;
  renew_server_ip = 0;
  if_index = if_index;
  route_priority = route_priority;
  if_mac_address = mac;
  leased_ip_netmask = 0;
}

-- The messages that the client sends; the fields are those that vary. All words are as in memory.
pub data Message : Type 0 where
  -- from `dhcpClient_onTimerFd`: identifier, flags, client address, hardware address, type
  poll : ℕ → ℕ → ℕ → List ℕ → ℕ → Message
  -- the answer to an offer: identifier, hardware address, lease time, server, requested address
  accept : ℕ → List ℕ → List ℕ → List ℕ → List ℕ → Message

-- What the handlers do outside the program.
pub data Effect : Type 0 where
  -- `sys_timerfd_settime` with this `tv_sec`; 0 disarms the timer
  set_timer : ℕ → Effect
  -- `sys_sendto` to port 67 of an address, and `sys_sendmsg` as a raw broadcast
  send : ℕ → Message → Effect
  broadcast : Message → Effect
  -- netlink requests: the address, for a new one with its prefix length; the default gateway
  del_addr : ℕ → ℕ → Effect
  new_addr : ℕ → ℕ → ℕ → Effect
  new_route : ℕ → ℕ → Effect
  -- the lines printed on a new lease and on a lost one
  print_leased : ℕ → ℕ → Effect
  print_lost : Effect

abbrev pub broadcast_address : ℕ
broadcast_address = 2 ^ 32 - 1

-- `dhcpClient_onTimerFd`.
unfoldable pub on_timer : Client → Client × List Effect
on_timer c =
    let identifier = (c.current_identifier + 1) % 2 ^ 32 in
    let c' = record c { current_identifier = identifier } in
    let renewed = poll (bswap32 identifier) 0 c.leased_ip c.if_mac_address Kind.request in
    let discover =
      broadcast (poll (bswap32 identifier) (bswap16 0x8000) 0 c.if_mac_address Kind.discover) in
    if not (c.leased_ip == 0) && not (c.renew_server_ip == 0)
    then (record c' { renew_server_ip = 0 }, send c.renew_server_ip renewed ∷ set_timer 10 ∷ [])
    else if not (c.leased_ip == 0)
    then (
      record c' { leased_ip = 0 },
      print_lost ∷ del_addr c.if_index c.leased_ip ∷ discover ∷ set_timer 10 ∷ [],
    )
    else (c', discover ∷ set_timer 10 ∷ [])

-- `hc_POPCOUNT32`
unfoldable pub popcount : ℕ → ℕ → ℕ
popcount zero w = 0
popcount (suc bits) w = w % 2 + popcount bits (w / 2)

-- The case `dhcp_OFFER`: `lease` points to the option of the lease time.
unfoldable pub on_offer : Client → List ℕ → ℕ → List Effect
on_offer c buffer lease =
    send broadcast_address (
      accept (bswap32 c.current_identifier) c.if_mac_address (window buffer (lease + 2) 4)
        (window buffer At.server_ip 4) (window buffer At.your_ip 4))
    ∷ set_timer 10
    ∷ []

-- `(leaseTimeValue + 1) / 2` in `uint32_t`.
unfoldable pub half_lease : ℕ → ℕ
half_lease lease_time_value = (lease_time_value + 1) % 2 ^ 32 / 2

-- The case `dhcp_ACK`, with the three options that it needs.
unfoldable pub on_ack : Client → List ℕ → Option ℕ → ℕ → ℕ → ℕ → Client × List Effect
unfolding popcount half_lease
on_ack c buffer dns mask router lease =
    let prefix = popcount 32 (word_at buffer (mask + 2)) % 2 ^ 8 in
    let your_ip = word_at buffer At.your_ip in
    let configure =
      new_addr c.if_index your_ip prefix
      ∷ new_route (word_at buffer (router + 2)) c.route_priority
      ∷ [] in
    (
      record c {
        dns_ip = elim dns [ none ↦ 0 | some o ↦ word_at buffer (o + 2) ];
        leased_ip_netmask = prefix;
        renew_server_ip = word_at buffer At.server_ip;
        leased_ip = your_ip;
      },
      set_timer (half_lease (bswap32 (word_at buffer (lease + 2))))
          ∷ (if c.leased_ip == your_ip then configure else print_leased your_ip prefix ∷ configure),
    )

-- The `switch` on the message type.
unfoldable pub dispatch : Client → List ℕ → Found → ℕ → Client × List Effect
dispatch c buffer f kind =
    if kind == Kind.offer
    then elim (f.lease_time) [ none ↦ (c, []) | some lease ↦ (c, on_offer c buffer lease) ]
    else if kind == Kind.nak
    then (c, set_timer 5 ∷ [])
    else if kind == Kind.ack
    then elim (f.subnet_mask) [
      | none ↦ (c, [])
      | some mask ↦ elim (f.router) [
        | none ↦ (c, [])
        | some router ↦ elim (f.lease_time) [
          | none ↦ (c, [])
          | some lease ↦ on_ack c buffer f.dns mask router lease
        ]
      ]
    ]
    else (c, [])

-- The checks of `dhcpClient_onFd` and its `switch`, for the pointers that the loop has left.
unfoldable pub handle : Client → List ℕ → ℕ → Found → Client × List Effect
unfolding same_bytes
handle c buffer num_read f =
    if ltb num_read At.options
    then (c, [])
    else if not (same_bytes (window buffer At.client_hw_addr 6) c.if_mac_address)
    then (c, [])
    else elim (f.message_type) [
      | none ↦ (c, [])
      | some o ↦ dispatch c buffer f (byte_at buffer (o + 2))
    ]

-- `dhcpClient_onFd` for the `num_read` bytes at the start of `buffer`.
unfoldable pub on_fd : Client → List ℕ → ℕ → Client × List Effect
on_fd c buffer num_read =
    handle c buffer num_read (find_options (suc num_read) buffer num_read At.options nothing_found)
