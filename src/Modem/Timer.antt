-- ===== src/Modem/Timer.antt =====
-- modemClient_onTimerFd of router/router/modemClient.c: connecting, and the poll for messages.
pub mod After
use hc.Base.{
  ℕ, ◌^◌, ◌≡◌, ◌<◌, ◌⊎◌, inl, inr, refl, arith, Bool, true, false, if◌then◌else◌, ◌++◌, ◌∷◌, ◌≤◌,
  subst, sym, ◌∙◌, Option, none, some, List, [], length,
}
use hc.Modem.{
  constant_bytes, little_endian, ModemClient, Status, done, failed, unreachable, disconnect,
  queue_constant, queue_capacity,
}
use hc.Modem.Commands.{Command, constant, encode, encode_all, AllFit}
use hc.Modem.Abstract.{Writer}
use hc.Modem.Queue.{Holds}
use hc.Modem.Calls.{queue_constant-Refines}
use hc.Modem.Submit.{Works, queued, submit-done}

-- Behind the label `out_fail`.
unfoldable pub give_up : ModemClient → ModemClient
unfolding disconnect
give_up self = record (disconnect self) { timer = 10 }

-- The structure for a new connection.
unfoldable pub fresh : ModemClient → ℕ → ModemClient
fresh self fd = record self {
  fd = some fd;
  received_size = 0;
  command_queue_size = 0;
  pending_command = false;
}

-- The addresses and sizes of the two constants.
module _ (string_at : ℕ → ℕ → List ℕ) (sys_write : Writer)
    (init_cmd init_length poll_cmd poll_length : ℕ) where
  -- A constant that is queued, or `goto out_fail`; then `next`.
  unfoldable pub queue_or_fail : Status × ModemClient → (ModemClient → ModemClient) → ModemClient
  unfolding give_up
  queue_or_fail (done, self) next = next self
  queue_or_fail (failed, self) next = give_up self
  queue_or_fail (unreachable, self) next = self

  -- The poll for messages.
  unfoldable pub poll : ModemClient → ModemClient
  unfolding queue_or_fail
  poll self = queue_or_fail (queue_constant string_at sys_write self poll_cmd poll_length) (λ s. s)

  -- `modemClient_onTimerFd`. The arguments are what sys_openat returns, and whether both calls of
  -- sys_ioctl succeed.
  unfoldable pub on_timer : ModemClient → Option ℕ → Bool → ModemClient
  unfolding poll give_up fresh queue_or_fail
  on_timer self opened ioctl_ok = elim self.fd [
    | none ↦ elim opened [
      | none ↦ give_up self
      | some fd ↦
          if ioctl_ok
          then queue_or_fail
              (queue_constant string_at sys_write (fresh self fd) init_cmd init_length) poll
          else give_up (record self { fd = some fd })
    ]
    | some fd ↦ if self.pending_command then give_up self else poll self
  ]
