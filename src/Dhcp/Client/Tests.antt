-- ===== src/Dhcp/Client/Tests.antt =====
-- The client at concrete states.
use hc.Base.{◌++◌, ℕ, ◌≡◌, ◌≤◌, ◌<◌, ◌*◌, ◌-◌, ◌^◌, refl, arith, List, [], ◌∷◌, none}
use hc.Dhcp.Kind
use hc.Dhcp.Server.{reply_bytes, same_bytes}
use hc.Dhcp.Options.{find_options, note_option}
use hc.Dhcp.Interop.{a_reply, reply_size}
use hc.Dhcp.Client.{Client, Effect, set_timer, on_timer, on_ack, on_fd, handle, dispatch}
use hc.Dhcp.Client.Leases.{phase, idle, on_timer_twice, on_ack_timer}
use hc.Dhcp.Client.Addresses.{
  World, after, standing, here, next, tick, message, leased_address_stands, configured, removed,
  old_address_stays,
}

-- A client with the lease 10.123.0.40 from 10.123.0.1.
abbrev leased : Client
leased = record {
  dns_ip = 0;
  current_identifier = 7;
  leased_ip = 671120138;
  renew_server_ip = 16808714;
  if_index = 2;
  route_priority = 100;
  if_mac_address = 2 ∷ 0 ∷ 0 ∷ 0 ∷ 0 ∷ 7 ∷ [];
  leased_ip_netmask = 24;
}

on_timer_twice_example :
    ((on_timer (on_timer leased).0).0.leased_ip ≡ 0)
    × (phase (on_timer (on_timer leased).0).0 ≡ idle)
on_timer_twice_example = on_timer_twice leased

-- Options of an ACK at 0, 6 and 12: mask, router, lease time of 600 seconds.
abbrev options : List ℕ
options = 1 ∷ 4 ∷ 255 ∷ 255 ∷ 255 ∷ 0 ∷ 3 ∷ 4 ∷ 10 ∷ 123 ∷ 0 ∷ 1 ∷ 51 ∷ 4 ∷ 0 ∷ 0 ∷ 2 ∷ 88 ∷ []

on_ack_timer_example :
    (t : ℕ) × (rest : List Effect) × ((on_ack leased options none 0 6 12).1 ≡ set_timer t ∷ rest)
    × (600 < 2 ^ 32 - 1 → (600 ≤ 2 * t) × (2 * t ≤ 601))
    × (600 ≡ 2 ^ 32 - 1 → t ≡ 0)
on_ack_timer_example = on_ack_timer leased options none 0 6 12

-- An ACK of that lease by 10.123.0.1.
abbrev ack : List ℕ
unfolding reply_bytes
ack = reply_bytes (a_reply 0 0 0 1 10 123 0 40 10 123 0 1 2 0 0 0 0 7 8 8 8 8 Kind.ack)

-- A client that gets a lease, renews it, and loses it.
abbrev unleased : World
unleased = record { client = record leased { leased_ip = 0; renew_server_ip = 0 }; effects = [] }

abbrev bound : World
bound = after unleased (on_fd unleased.client ack reply_size)

abbrev renewed : World
renewed = after bound (on_fd bound.client ack reply_size)

abbrev asked : World
asked = after renewed (on_timer renewed.client)

leased_address_stands_example :
    let w = after asked (on_timer asked.client) in
    standing w.client.if_index 0 w.effects ≡ w.client.leased_ip
leased_address_stands_example =
    leased_address_stands unleased (after asked (on_timer asked.client)) refl refl (
      next
        (next (next (next here (message unleased ack reply_size)) (message bound ack reply_size))
          (tick renewed))
        (tick asked))

bound_stands : standing 2 0 bound.effects ≡ 671120138
unfolding on_fd find_options note_option handle dispatch on_ack same_bytes ack
bound_stands = refl

old_address_stays_example :
    let acked = on_ack (record leased { leased_ip = 5 }) ack none 249 255 261 in
    let once = on_timer acked.0 in
    let twice = on_timer once.0 in
    (configured acked.1 ≡ 671120138 ∷ [])
    × (removed acked.1 ≡ [])
    × (configured (once.1 ++ twice.1) ≡ [])
    × (removed (once.1 ++ twice.1) ≡ 671120138 ∷ [])
unfolding ack
old_address_stays_example =
    old_address_stays (record leased { leased_ip = 5 }) ack none 249 255 261 (omega arith)
