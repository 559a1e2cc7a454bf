-- ===== src/Dhcp/Interop/Tests.antt =====
-- The exchange of a reply at concrete bytes.
use hc.Base.{ℕ, ◌≡◌, refl, ap, List, [], ◌∷◌, ◌++◌, bswap32}
use hc.Dhcp.Kind
use hc.Dhcp.Server.{reply_bytes}
use hc.Dhcp.Client.{
  Client, Effect, init, send, accept, broadcast_address, set_timer, print_leased, new_addr,
  new_route,
}
use hc.Dhcp.Client
use hc.Dhcp.Interop.{a_reply, reply_size, ack_understood, offer_understood}

abbrev mac : List ℕ
mac = 2 ∷ 0 ∷ 0 ∷ 0 ∷ 0 ∷ 7 ∷ []

-- The client as it starts.
abbrev fresh : Client
unfolding init
fresh = init 2 100 mac

ack_understood_example :
    Client.on_fd fresh
      (reply_bytes (a_reply 0 0 0 1 10 123 0 40 10 123 0 1 2 0 0 0 0 7 8 8 8 8 Kind.ack) ++ 7 ∷ [])
      reply_size
    ≡ (
      record fresh {
        dns_ip = 134744072;
        leased_ip = 671120138;
        renew_server_ip = 16808714;
        leased_ip_netmask = 24;
      },
      set_timer 300
          ∷ print_leased 671120138 24
          ∷ new_addr 2 671120138 24
          ∷ new_route 16808714 100
          ∷ [],
    )
unfolding fresh
ack_understood_example =
    ack_understood 0 0 0 1 10 123 0 40 10 123 0 1 2 0 0 0 0 7 8 8 8 8 fresh (7 ∷ []) refl

-- The renewal of the lease that a client has: the timer is armed and the address configured again.
abbrev renewing : Client
renewing = record fresh { leased_ip = 671120138 }

ack_renews :
    (Client.on_fd renewing
      (reply_bytes (a_reply 0 0 0 1 10 123 0 40 10 123 0 1 2 0 0 0 0 7 8 8 8 8 Kind.ack))
      reply_size).1
    ≡ set_timer 300 ∷ new_addr 2 671120138 24 ∷ new_route 16808714 100 ∷ []
unfolding fresh reply_bytes
ack_renews =
    ap (λ r. r.1)
      (ack_understood 0 0 0 1 10 123 0 40 10 123 0 1 2 0 0 0 0 7 8 8 8 8 renewing [] refl)

offer_understood_example :
    Client.on_fd fresh
      (reply_bytes (a_reply 0 0 0 1 10 123 0 40 10 123 0 1 2 0 0 0 0 7 8 8 8 8 Kind.offer)
        ++ 7 ∷ [])
      reply_size
    ≡ (
      fresh,
      send broadcast_address (
            accept
              (bswap32 0)
              mac
              (0 ∷ 0 ∷ 2 ∷ 88 ∷ [])
              (10 ∷ 123 ∷ 0 ∷ 1 ∷ [])
              (10 ∷ 123 ∷ 0 ∷ 40 ∷ []))
          ∷ set_timer 10
          ∷ [],
    )
unfolding fresh
offer_understood_example =
    offer_understood 0 0 0 1 10 123 0 40 10 123 0 1 2 0 0 0 0 7 8 8 8 8 fresh (7 ∷ []) refl
