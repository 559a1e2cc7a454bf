-- ===== src/Dhcp/Client/Leases.antt =====
-- The timer of the client: how a lease runs out, and when the timer is armed.
use hc.Base.{
  ℕ, ◌+◌, ◌-◌, ◌*◌, ◌/◌, ◌%◌, ◌^◌, ◌≤◌, ◌<◌, ◌==◌, ◌≡◌, refl, arith, List, ◌∷◌, Option, word_at,
  bswap32, if◌then◌else◌,
}
use hc.Dhcp.Client.{Client, Effect, set_timer, on_timer, on_ack, half_lease}

-- Where a client is with its lease.
pub data Phase : Type 0 where
  idle bound renewing : Phase

abbrev pub phase : Client → Phase
phase c = if c.leased_ip == 0 then idle else if c.renew_server_ip == 0 then renewing else bound

-- A lease that is not renewed is gone after two expiries of the timer, whatever the state was.
pub on_timer_twice :
    (c : Client)
    → ((on_timer (on_timer c).0).0.leased_ip ≡ 0) × (phase (on_timer (on_timer c).0).0 ≡ idle)
unfolding on_timer
on_timer_twice c = (ground arith, ground arith)

-- An ACK arms the timer first, for half of the lease time, rounded up, if the lease time is below
-- 2 ^ 32 - 1 seconds. For 2 ^ 32 - 1, which stands for a lease without end, the sum wraps and the
-- timer is disarmed.
pub on_ack_timer :
    (c : Client) (buffer : List ℕ) (dns : Option ℕ) (mask router lease : ℕ)
    → let l = bswap32 (word_at buffer (lease + 2)) in
      (t : ℕ) × (rest : List Effect) × ((on_ack c buffer dns mask router lease).1
        ≡ set_timer t ∷ rest)
      × (l < 2 ^ 32 - 1 → (l ≤ 2 * t) × (2 * t ≤ l + 1))
      × (l ≡ 2 ^ 32 - 1 → t ≡ 0)
unfolding on_ack half_lease
on_ack_timer c buffer dns mask router lease =
    let l = bswap32 (word_at buffer (lease + 2)) in
    ((l + 1) % 2 ^ 32 / 2, _, refl, λ h. (omega arith, omega arith), λ h. omega arith)
