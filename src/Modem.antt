-- ===== src/Modem.antt =====
-- router/router/modemClient.c: the commands for the modem, which wait packed in an array. The kernel
-- and the constants of the program are parameters. `log` is no member of the structure: it lists
-- what was written to the modem, and each answer of the kernel may depend on it.
mod Commands
mod Abstract
mod Queue
mod Calls
mod Submit
mod Lines
mod Hang
mod Run
mod Timer
mod Passes
mod Tests
use hc.Base.{
  ℕ, zero, suc, ◌+◌, ◌-◌, ◌*◌, ◌/◌, ◌%◌, ◌^◌, ltb, ◌==◌, if◌then◌else◌, Bool, true, false, not,
  ◌&&◌, ◌||◌, Option, none, some, List, [], ◌∷◌, ◌++◌, length, take, drop, byte_at, copy_to,
}

-- `struct modemClient`, `timer` being the seconds last set. `fd` is the descriptor of the modem, which
-- is positive, as the assertion behind sys_openat says, or missing, where it is negative.
pub record ModemClient : Type 0 where
  pub fd : Option ℕ
  pub received_size : ℕ
  pub command_queue_size : ℕ
  pub buffer : List ℕ
  pub command_queue : List ℕ
  pub pending_command : Bool
  pub timer : ℕ
  pub log : List (List ℕ)

-- Return values 0 and -1, and the places that `hc_UNREACHABLE` names.
pub data Status : Type 0 where
  done : Status
  failed : Status
  unreachable : Status

-- The tags.
abbrev pub no_cmd : ℕ
no_cmd = 0

abbrev pub constant_tag : ℕ
constant_tag = 1

abbrev pub start_sms_tag : ℕ
start_sms_tag = 2

abbrev pub send_sms_tag : ℕ
send_sms_tag = 3

-- The size of `commandQueue`, and of a constant in it.
abbrev pub queue_capacity : ℕ
queue_capacity = 4103

abbrev pub constant_size : ℕ
constant_size = 11

-- `count` bytes of a number, the lowest first, as x86_64 stores it.
unfoldable pub little_endian : ℕ → ℕ → List ℕ
little_endian zero v = []
little_endian (suc count) v = v % 2 ^ 8 ∷ little_endian count (v / 2 ^ 8)

unfoldable pub load_little_endian : ℕ → List ℕ → ℕ
load_little_endian zero bytes = 0
load_little_endian (suc count) [] = 0
load_little_endian (suc count) (b ∷ bytes) = b + load_little_endian count bytes * 2 ^ 8

-- The texts around a number, and behind an SMS.
abbrev pub start_sms_cmd : List ℕ
start_sms_cmd = b'A' ∷ b'T' ∷ b'+' ∷ b'C' ∷ b'M' ∷ b'G' ∷ b'S' ∷ b'=' ∷ 0x22 ∷ []

abbrev pub start_sms_end : List ℕ
start_sms_end = 0x22 ∷ 0x0D ∷ []

abbrev pub send_sms_end : List ℕ
send_sms_end = 0x1A ∷ []

abbrev pub escape : List ℕ
escape = 0x1B ∷ []

-- `modemClient_pendingCmdTag`
abbrev pub pending_cmd_tag : ModemClient → ℕ
pending_cmd_tag self = if self.pending_command then byte_at self.command_queue 0 else no_cmd

-- `modemClient_disconnect`; there is a descriptor exactly if `self->fd > 0`.
unfoldable pub disconnect : ModemClient → ModemClient
disconnect self = elim self.fd [
  | none ↦ self
  | some fd ↦ record self { fd = none; log = self.log ++ (escape ∷ []) }
]

-- Bytes behind those of the queue.
unfoldable pub enqueue : ModemClient → List ℕ → ModemClient
enqueue self bytes = record self {
  command_queue = copy_to self.command_queue self.command_queue_size bytes;
  command_queue_size = self.command_queue_size + length bytes;
}

-- `struct modemClient_constant`
unfoldable pub constant_bytes : ℕ → ℕ → List ℕ
unfolding little_endian
constant_bytes address constant_length =
    constant_tag ∷ (little_endian 2 constant_length ++ little_endian 8 address)

-- `struct modemClient_startSms` with its number.
unfoldable pub start_sms_bytes : List ℕ → List ℕ
start_sms_bytes number = start_sms_tag ∷ length number ∷ number

-- `struct modemClient_sendSms` with its text.
unfoldable pub send_sms_bytes : List ℕ → List ℕ
unfolding little_endian
send_sms_bytes sms = send_sms_tag ∷ (little_endian 2 (length sms) ++ sms)

-- The size of the command at the start, or none for no tag.
unfoldable pub ack_size : List ℕ → ℕ → Option ℕ
unfolding load_little_endian
ack_size queue tag =
    if tag == constant_tag
    then some constant_size
    else if tag == start_sms_tag
    then some (2 + byte_at queue 1)
    else if tag == send_sms_tag
    then some (3 + load_little_endian 2 (drop 1 queue))
    else none

-- `string_at` are the bytes at an address of the program. `sys_write` is what the kernel answers to
-- a write, behind earlier ones; no number is an error.
module _ (string_at : ℕ → ℕ → List ℕ)
    (sys_write : Option ℕ → List (List ℕ) → List ℕ → Option ℕ) where
  -- What the `switch` of `modemClient_processQueue` writes, or none for no tag.
  unfoldable pub queued_text : List ℕ → Option (List ℕ)
  unfolding load_little_endian
  queued_text queue =
      let tag = byte_at queue 0 in
      let word = load_little_endian 2 (drop 1 queue) in
      if tag == constant_tag
      then some (string_at (load_little_endian 8 (drop 3 queue)) word)
      else if tag == start_sms_tag
      then some (start_sms_cmd ++ (take (byte_at queue 1) (drop 2 queue) ++ start_sms_end))
      else if tag == send_sms_tag
      then some (take word (drop 3 queue) ++ send_sms_end)
      else none

  -- A write of a command, and what follows the `switch`.
  unfoldable pub write_command : ModemClient → List ℕ → Status × ModemClient
  write_command self text =
      let self' = record self { log = self.log ++ (text ∷ []) } in
      elim (sys_write self.fd self.log text) [
        | none ↦ (failed, self')
        | some written ↦
            if written == length text
            then (done, record self' { pending_command = true; timer = 10 })
            else (failed, self')
      ]

  -- `modemClient_processQueue`
  unfoldable pub process_queue : ModemClient → Status × ModemClient
  unfolding queued_text write_command
  process_queue self =
      if self.pending_command || self.command_queue_size == 0
      then (done, self)
      else elim (queued_text self.command_queue) [
        | none ↦ (unreachable, self)
        | some text ↦ write_command self text
      ]

  -- `modemClient_queueConstant`
  unfoldable pub queue_constant : ModemClient → ℕ → ℕ → Status × ModemClient
  unfolding process_queue enqueue constant_bytes
  queue_constant self constant constant_length =
      if ltb (queue_capacity - constant_size) self.command_queue_size
      then (failed, self)
      else process_queue (enqueue self (constant_bytes constant constant_length))

  -- `modemClient_queueSms`. The sizes are moved to one side of the test, which is on signed numbers.
  unfoldable pub queue_sms : ModemClient → List ℕ → List ℕ → Status × ModemClient
  unfolding process_queue enqueue start_sms_bytes send_sms_bytes
  queue_sms self number sms =
      if ltb queue_capacity (self.command_queue_size + (2 + length number) + (3 + length sms))
      then (failed, self)
      else process_queue (enqueue (enqueue self (start_sms_bytes number)) (send_sms_bytes sms))

  -- `modemClient_ackPending` behind its `switch`.
  unfoldable pub ack_bytes : ModemClient → Option ℕ → Status × ModemClient
  unfolding process_queue
  ack_bytes self none = (unreachable, self)
  ack_bytes self (some size) =
      let left = self.command_queue_size - size in
      process_queue (record self {
        command_queue = copy_to self.command_queue 0 (take left (drop size self.command_queue));
        command_queue_size = left;
        pending_command = false;
      })

  -- `modemClient_ackPending`
  unfoldable pub ack_pending : ModemClient → Status × ModemClient
  unfolding ack_bytes ack_size
  ack_pending self = ack_bytes self (ack_size self.command_queue (pending_cmd_tag self))
