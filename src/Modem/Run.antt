-- ===== src/Modem/Run.antt =====
-- Any sequence of calls keeps the packed queue in step with the list of commands.
use hc.Base.{ℕ, ◌^◌, ◌≡◌, ◌<◌, refl, ap₂, sym, subst, List, [], ◌∷◌, length}
use hc.Modem.{ModemClient, Status, queue_constant, queue_sms, ack_pending}
use hc.Modem.Commands.{constant, start_sms, send_sms, Command}
use hc.Modem.Abstract.{Outbox, Writer, submit, acknowledge}
use hc.Modem.Queue.{Holds, Refines, outbox}
use hc.Modem.Calls.{queue_constant-Refines, queue_sms-Refines, ack_pending-Refines}

-- The calls that change the queue.
pub data Event : Type 0 where
  constant_event : ℕ → ℕ → Event
  sms_event : List ℕ → List ℕ → Event
  ack_event : Event

-- The arguments have the types of the source.
unfoldable pub InRange : List Event → Type 0
InRange [] = Unit
InRange (constant_event address size ∷ events) =
    (address < 2 ^ 64) × (size < 2 ^ 16) × InRange events
InRange (sms_event number sms ∷ events) =
    (length number < 2 ^ 8) × (length sms < 2 ^ 16) × InRange events
InRange (ack_event ∷ events) = InRange events

module _ (string_at : ℕ → ℕ → List ℕ) (sys_write : Writer) where
  unfoldable pub call : Event → ModemClient → Status × ModemClient
  call (constant_event address size) self = queue_constant string_at sys_write self address size
  call (sms_event number sms) self = queue_sms string_at sys_write self number sms
  call ack_event self = ack_pending string_at sys_write self

  unfoldable pub ideal_call : Event → Outbox → Status × Outbox
  ideal_call (constant_event address size) o =
      submit string_at sys_write (constant address size ∷ []) o
  ideal_call (sms_event number sms) o =
      submit string_at sys_write (start_sms number ∷ send_sms sms ∷ []) o
  ideal_call ack_event o = acknowledge string_at sys_write o

  -- The return values, and the structure at the end.
  unfoldable pub run : List Event → ModemClient → List Status × ModemClient
  unfolding call
  run [] self = ([], self)
  run (e ∷ events) self =
      let (status, self') = call e self in
      let (statuses, end) = run events self' in (status ∷ statuses, end)

  unfoldable pub ideal_run : List Event → Outbox → List Status × Outbox
  unfolding ideal_call
  ideal_run [] o = ([], o)
  ideal_run (e ∷ events) o =
      let (status, o') = ideal_call e o in
      let (statuses, end) = ideal_run events o' in (status ∷ statuses, end)

  call-Refines :
      (e : Event) (events : List Event) (self : ModemClient) (commands : List Command)
      → Holds self commands
      → InRange (e ∷ events)
      → Refines (call e self) (ideal_call e (outbox self commands)) × InRange events
  unfolding call ideal_call InRange
  call-Refines (constant_event address size) events self commands h (a, b, more) =
      (queue_constant-Refines string_at sys_write self commands address size h a b, more)
  call-Refines (sms_event number sms) events self commands h (a, b, more) =
      (queue_sms-Refines string_at sys_write self commands number sms h a b, more)
  call-Refines ack_event events self commands h more =
      (ack_pending-Refines string_at sys_write self commands h, more)

  -- From a structure whose bytes are some commands, every sequence of queueConstant, queueSms and
  -- ackPending, with arguments in the range of their types, returns the values that the list of
  -- commands returns, writes what it writes, and ends with the bytes of its commands.
  pub run-ideal_run :
      (events : List Event) (self : ModemClient) (commands : List Command)
      → Holds self commands
      → InRange events
      → let real = run events self in
        let ideal = ideal_run events (outbox self commands) in
        (real.0 ≡ ideal.0)
        × (ideal.1 ≡ outbox real.1 ideal.1.commands)
        × Holds real.1 ideal.1.commands
  unfolding run ideal_run outbox
  run-ideal_run [] self commands h r = (refl, refl, h)
  run-ideal_run (e ∷ events) self commands h r =
      let (one, more) = call-Refines e events self commands h r in
      let self' = (call e self).1 in
      let o' = (ideal_call e (outbox self commands)).1 in
      let rest = run-ideal_run events self' o'.commands one.holds more in
      let rest' =
        subst
          (λ o.
            ((run events self').0 ≡ (ideal_run events o).0)
            × ((ideal_run events o).1 ≡ outbox (run events self').1 (ideal_run events o).1.commands)
            × Holds (run events self').1 (ideal_run events o).1.commands)
          (sym one.same_view) rest in
      (ap₂ (λ s t. s ∷ t) one.same_status rest'.0, rest'.1, rest'.2)
