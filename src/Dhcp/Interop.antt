-- ===== src/Dhcp/Interop.antt =====
-- router/router/dhcpServer.c and dhcpClient.c together: the client reads in the server's reply what
-- the server put there.
mod Tests
use hc.Base.{
  ℕ, suc, ◌+◌, ◌*◌, ◌%◌, ◌^◌, ◌≡◌, refl, ap, arith, ◌∙◌, true, false, length, byte_at-append, List,
  [], ◌∷◌, ◌++◌, some, Bool, word_at, word_bytes, bswap32, ◌==◌, if◌then◌else◌, ◌≢◌,
}
use hc.Dhcp.Kind
use hc.Dhcp.At
use hc.Dhcp.Options.{Found, nothing_found, find_options, note_option}
use hc.Dhcp.Options.Stale.{find_options_stale}
use hc.Dhcp.Server.Table.{same_bytes_iff}
use hc.Dhcp.Server.{Reply, reply_bytes, same_bytes}
use hc.Dhcp.Client
use hc.Dhcp.Client.{
  Client, Effect, set_timer, print_leased, new_addr, new_route, send, accept, broadcast_address,
}

-- `sizeof(struct reply)`
abbrev pub reply_size : ℕ
reply_size = 276

-- Where the options of a reply stand.
abbrev reply_options : Found
reply_options = record {
  message_type = some 240;
  subnet_mask = some 249;
  router = some 255;
  dns = some 267;
  lease_time = some 261;
}

-- A reply to a device with hardware address `m`, from the server at `s`.
module _ (i0 i1 i2 i3 y0 y1 y2 y3 s0 s1 s2 s3 m0 m1 m2 m3 m4 m5 d0 d1 d2 d3 : ℕ) where
  abbrev pub a_reply : ℕ → Reply
  a_reply kind = record {
    identifier = i0 ∷ i1 ∷ i2 ∷ i3 ∷ [];
    your_ip = y0 ∷ y1 ∷ y2 ∷ y3 ∷ [];
    client_hw_addr = m0 ∷ m1 ∷ m2 ∷ m3 ∷ m4 ∷ m5 ∷ [];
    message_type = kind;
    server_ip = s0 ∷ s1 ∷ s2 ∷ s3 ∷ [];
    dns = d0 ∷ d1 ∷ d2 ∷ d3 ∷ [];
  }

  length-reply : (kind : ℕ) → length (reply_bytes (a_reply kind)) ≡ reply_size
  unfolding reply_bytes
  length-reply kind = refl

  find_options-reply :
      (kind : ℕ)
      → find_options
          (suc reply_size)
          (reply_bytes (a_reply kind))
          reply_size
          At.options
          nothing_found
        ≡ reply_options
  unfolding find_options note_option reply_bytes
  find_options-reply kind = refl

  -- Bytes that are left over behind the reply do not matter.
  find_options-received :
      (kind : ℕ) (stale : List ℕ)
      → find_options
          (suc reply_size)
          (reply_bytes (a_reply kind) ++ stale)
          reply_size
          At.options
          nothing_found
        ≡ reply_options
  find_options-received kind stale =
      find_options_stale (suc reply_size) At.options (reply_bytes (a_reply kind) ++ stale)
        (reply_bytes (a_reply kind)) reply_size
        (λ i h. byte_at-append (reply_bytes (a_reply kind)) stale i (rw (length-reply kind) h))
      ∙ find_options-reply kind

  same_bytes-mac :
      (c : Client)
      → c.if_mac_address ≡ m0 ∷ m1 ∷ m2 ∷ m3 ∷ m4 ∷ m5 ∷ []
      → same_bytes (m0 ∷ m1 ∷ m2 ∷ m3 ∷ m4 ∷ m5 ∷ []) c.if_mac_address ≡ true
  same_bytes-mac c e = rw e ((same_bytes_iff _ _).1 refl)

  -- What the pointers of a reply lead to.
  on_fd-handle :
      (c : Client) (kind : ℕ) (stale : List ℕ)
      → Client.on_fd c (reply_bytes (a_reply kind) ++ stale) reply_size
        ≡ Client.handle c (reply_bytes (a_reply kind) ++ stale) reply_size reply_options
  unfolding Client.on_fd
  on_fd-handle c kind stale =
      ap (Client.handle c (reply_bytes (a_reply kind) ++ stale) reply_size)
        (find_options-received kind stale)

  handle-ack :
      (c : Client) (stale : List ℕ)
      → c.if_mac_address ≡ m0 ∷ m1 ∷ m2 ∷ m3 ∷ m4 ∷ m5 ∷ []
      → Client.handle c (reply_bytes (a_reply Kind.ack) ++ stale) reply_size reply_options
        ≡ Client.on_ack c (reply_bytes (a_reply Kind.ack) ++ stale) (some 267) 249 255 261
  unfolding Client.handle Client.dispatch reply_bytes
  handle-ack c stale e = rw (same_bytes-mac c e) refl

  handle-offer :
      (c : Client) (stale : List ℕ)
      → c.if_mac_address ≡ m0 ∷ m1 ∷ m2 ∷ m3 ∷ m4 ∷ m5 ∷ []
      → Client.handle c (reply_bytes (a_reply Kind.offer) ++ stale) reply_size reply_options
        ≡ (c, Client.on_offer c (reply_bytes (a_reply Kind.offer) ++ stale) 261)
  unfolding Client.handle Client.dispatch reply_bytes
  handle-offer c stale e = rw (same_bytes-mac c e) refl

  abbrev word : ℕ → ℕ → ℕ → ℕ → ℕ
  word a b c d = a + b * 2 ^ 8 + c * 2 ^ 16 + d * 2 ^ 24

  only_new :
      (b : Bool) (c : Client) (t : ℕ) (l : Effect) (es : List Effect)
      → ◌≡◌ {A = Client × List Effect}
          (c, set_timer t ∷ (if b then es else l ∷ es))
          (c, set_timer t ∷ ((if b then [] else l ∷ []) ++ es))
  only_new true c t l es = refl
  only_new false c t l es = refl

  -- An ACK of the server, whatever older bytes stand behind it in the buffer, makes its client take
  -- the address, the name server and the server to renew from; arm its timer for half of the 600
  -- seconds; and configure the address with a prefix of 24 bits and the server as its gateway. That
  -- holds for a new lease and for the renewal of the one it has; only a new one is printed.
  pub ack_understood :
      (c : Client) (stale : List ℕ)
      → c.if_mac_address ≡ m0 ∷ m1 ∷ m2 ∷ m3 ∷ m4 ∷ m5 ∷ []
      → Client.on_fd c (reply_bytes (a_reply Kind.ack) ++ stale) reply_size ≡ (
        record c {
          dns_ip = word d0 d1 d2 d3;
          leased_ip = word y0 y1 y2 y3;
          renew_server_ip = word s0 s1 s2 s3;
          leased_ip_netmask = 24;
        },
        set_timer 300
            ∷ ((if c.leased_ip == word y0 y1 y2 y3
                  then []
                  else print_leased (word y0 y1 y2 y3) 24 ∷ [])
                ++ (new_addr c.if_index (word y0 y1 y2 y3) 24
                    ∷ new_route (word s0 s1 s2 s3) c.route_priority
                    ∷ [])),
      )
  unfolding Client.on_ack reply_bytes
  ack_understood c stale e =
      rw (on_fd-handle c Kind.ack stale, handle-ack c stale e)
        (only_new (c.leased_ip == word y0 y1 y2 y3) _ _ _ _)

  -- An OFFER of the server makes its client send a request by broadcast, under its own identifier,
  -- for the offered address from this server, with the lease time of 600 seconds, and wait 10.
  pub offer_understood :
      (c : Client) (stale : List ℕ)
      → c.if_mac_address ≡ m0 ∷ m1 ∷ m2 ∷ m3 ∷ m4 ∷ m5 ∷ []
      → Client.on_fd c (reply_bytes (a_reply Kind.offer) ++ stale) reply_size ≡ (
        c,
        send broadcast_address (
              accept
                (bswap32 c.current_identifier)
                c.if_mac_address
                (0 ∷ 0 ∷ 2 ∷ 88 ∷ [])
                (s0 ∷ s1 ∷ s2 ∷ s3 ∷ [])
                (y0 ∷ y1 ∷ y2 ∷ y3 ∷ []))
            ∷ set_timer 10
            ∷ [],
      )
  unfolding Client.on_offer reply_bytes
  offer_understood c stale e = rw (on_fd-handle c Kind.offer stale, handle-offer c stale e) refl
