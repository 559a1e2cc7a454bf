-- ===== src/Modem/Passes.antt =====
-- One pass of the loop of modemClient_onFd in router/router/modemClient.c over the lines.
pub mod Ends
use hc.Base.{
  subst, ℕ, zero, suc, ◌+◌, ◌-◌, ◌≡◌, ◌≤◌, refl, ap, ◌∙◌, arith, Bool, true, false, if◌then◌else◌,
  ltb, leb, ◌==◌, ◌||◌, ◌&&◌, ◌*◌, ◌/◌, ◌%◌, ◌^◌, Option, none, some, List, [], ◌∷◌, drop, take,
  copy_to, length, byte_at,
}
use hc.Util.Decimal.{Parsed, fault, overflow, nothing, stored, str_to_uint}
use hc.Modem.{
  disconnect, ModemClient, Status, done, failed, unreachable, process_queue, enqueue,
  queue_constant, queue_sms, ack_bytes, ack_pending, ack_size, pending_cmd_tag, no_cmd,
  start_sms_tag, queue_capacity, constant_size, constant_bytes, start_sms_bytes, send_sms_bytes,
}
use hc.Modem.Abstract.{Writer}
use hc.Modem.Hang.{process_queue-received_size}
use hc.Modem.Lines.{
  Outcome, crashed, finish_lines, Next, next_line, out, out_fail, fault_in, after, find_byte,
  on_answer, on_sms, on_sms_length, on_sender, on_slot, on_line, on_search, line_loop, ucs2_hex,
  print_ip, ip_text, error_text, cmgl_text, cmti_text, starts_with, behind_comma,
}

-- A pass that goes on leaves the count of received bytes as it is.
unfoldable Keeps : ℕ → Next → Type 0
Keeps size (next_line self line_length) = self.received_size ≡ size
Keeps size out = Unit
Keeps size (out_fail self) = Unit
Keeps size (fault_in self) = Unit

out-Keeps : (size : ℕ) → Keeps size out
unfolding Keeps
out-Keeps size = tt

fail-Keeps : (size : ℕ) (self : ModemClient) → Keeps size (out_fail self)
unfolding Keeps
fail-Keeps size self = tt

fault-Keeps : (size : ℕ) (self : ModemClient) → Keeps size (fault_in self)
unfolding Keeps
fault-Keeps size self = tt

line-Keeps : (self : ModemClient) (n : ℕ) → Keeps self.received_size (next_line self n)
unfolding Keeps
line-Keeps self n = refl

if-Keeps :
    (size : ℕ) (b : Bool) (x y : Next)
    → Keeps size x
    → Keeps size y
    → Keeps size (if b then x else y)
if-Keeps size true x y p q = p
if-Keeps size false x y p q = q

after-Keeps :
    (size : ℕ) (r : Status × ModemClient) (n : ℕ)
    → r.1.received_size ≡ size
    → Keeps size (after r n)
unfolding after Keeps
after-Keeps size (done, self) n h = h
after-Keeps size (failed, self) n h = tt
after-Keeps size (unreachable, self) n h = tt

if-received_size :
    (size : ℕ) (b : Bool) (x y : Status × ModemClient)
    → x.1.received_size ≡ size
    → y.1.received_size ≡ size
    → (if b then x else y).1.received_size ≡ size
if-received_size size true x y p q = p
if-received_size size false x y p q = q

find_byte-none : (c : ℕ) (bytes : List ℕ) → find_byte c bytes 0 0 ≡ none
unfolding find_byte
find_byte-none c [] = refl
find_byte-none c (b ∷ bytes) = refl

module _ (string_at : ℕ → ℕ → List ℕ) (sys_write : Writer) (cmd cmd_length : ℕ) (ip : List ℕ)
    (netmask : ℕ) where
  ack_bytes-received_size :
      (self : ModemClient) (r : Option ℕ)
      → (ack_bytes string_at sys_write self r).1.received_size ≡ self.received_size
  unfolding ack_bytes
  ack_bytes-received_size self none = refl
  ack_bytes-received_size self (some size) =
      let left = self.command_queue_size - size in
      process_queue-received_size string_at sys_write (record self {
        command_queue = copy_to self.command_queue 0 (take left (drop size self.command_queue));
        command_queue_size = left;
        pending_command = false;
      })

  ack_pending-received_size :
      (self : ModemClient)
      → (ack_pending string_at sys_write self).1.received_size ≡ self.received_size
  unfolding ack_pending
  ack_pending-received_size self =
      ack_bytes-received_size self (ack_size self.command_queue (pending_cmd_tag self))

  queue_constant-received_size :
      (self : ModemClient)
      → (queue_constant string_at sys_write self cmd cmd_length).1.received_size
        ≡ self.received_size
  unfolding queue_constant enqueue
  queue_constant-received_size self =
      let queued = enqueue self (constant_bytes cmd cmd_length) in
      if-received_size self.received_size
        (ltb (queue_capacity - constant_size) self.command_queue_size) (failed, self)
        (process_queue string_at sys_write queued) refl
        (process_queue-received_size string_at sys_write queued)

  queue_sms-received_size :
      (self : ModemClient) (number sms : List ℕ)
      → (queue_sms string_at sys_write self number sms).1.received_size ≡ self.received_size
  unfolding queue_sms enqueue
  queue_sms-received_size self number sms =
      let queued = enqueue (enqueue self (start_sms_bytes number)) (send_sms_bytes sms) in
      if-received_size self.received_size
        (ltb queue_capacity (self.command_queue_size + (2 + length number) + (3 + length sms)))
        (failed, self) (process_queue string_at sys_write queued) refl
        (process_queue-received_size string_at sys_write queued)

  on_answer-Keeps :
      (self : ModemClient) (tag : ℕ) (prompt : Bool)
      → Keeps self.received_size
          (on_answer string_at sys_write cmd cmd_length ip netmask self tag prompt)
  unfolding on_answer
  on_answer-Keeps self tag prompt =
      let size = self.received_size in
      let acked = ack_pending-received_size self in
      let answer = ack_pending string_at sys_write self in
      let no = fail-Keeps size self in
      if-Keeps size (tag == no_cmd) _ _ no (
        if-Keeps size prompt _ _
          (if-Keeps size (tag == start_sms_tag) _ _ (after-Keeps size answer 1 acked) no)
          (if-Keeps size (tag == start_sms_tag) _ _ no (after-Keeps size answer 2 acked)))

  on_sms_length-Keeps :
      (self : ModemClient) (line : List ℕ) (remaining line_length sender_index sender_end : ℕ)
      (parsed : Parsed ℕ)
      → Keeps self.received_size (
          on_sms_length string_at sys_write cmd cmd_length ip netmask self line remaining
            line_length sender_index sender_end parsed)
  unfolding on_sms_length on_sms
  on_sms_length-Keeps self line remaining line_length sender_index sender_end (stored i n) =
      let size = self.received_size in
      let number = take ((sender_end - sender_index) % 2 ^ 8) (drop sender_index line) in
      let sms = ucs2_hex (print_ip ip netmask) in
      let whole_length = line_length + (n * 4 + 1) in
      if-Keeps size (ltb ((remaining - (line_length + 1) - 1) / 4) n) _ _ (out-Keeps size) (
        if-Keeps size (n == 2 && starts_with (drop (line_length + 1) line) ip_text) _ _
          (after-Keeps size (queue_sms string_at sys_write self number sms) whole_length
            (queue_sms-received_size self number sms))
          (line-Keeps self whole_length))
  on_sms_length-Keeps self line remaining line_length sender_index sender_end fault =
      fault-Keeps self.received_size self
  on_sms_length-Keeps self line remaining line_length sender_index sender_end overflow =
      fail-Keeps self.received_size self
  on_sms_length-Keeps self line remaining line_length sender_index sender_end nothing =
      fail-Keeps self.received_size self

  on_sender-Keeps :
      (self : ModemClient) (line : List ℕ) (remaining line_length sender_index : ℕ)
      (found : Option ℕ)
      → Keeps self.received_size (
          on_sender string_at sys_write cmd cmd_length ip netmask self line remaining line_length
            sender_index found)
  unfolding on_sender
  on_sender-Keeps self line remaining line_length sender_index none =
      fail-Keeps self.received_size self
  on_sender-Keeps self line remaining line_length sender_index (some e) =
      on_sms_length-Keeps self line remaining line_length sender_index e (
        str_to_uint (drop (behind_comma line line_length) line)
          (line_length - behind_comma line line_length))

  on_slot-Keeps :
      (self : ModemClient) (line : List ℕ) (remaining line_length : ℕ) (found : Option ℕ)
      → Keeps self.received_size (
          on_slot string_at sys_write cmd cmd_length ip netmask self line remaining line_length
            found)
  unfolding on_slot
  on_slot-Keeps self line remaining line_length none = fail-Keeps self.received_size self
  on_slot-Keeps self line remaining line_length (some e) =
      on_sender-Keeps self line remaining line_length (e + 15)
        (find_byte 0x22 (drop (e + 15) line) (e + 15) line_length)

  on_line-Keeps :
      (self : ModemClient) (tag : ℕ) (line : List ℕ) (remaining line_length : ℕ)
      → Keeps self.received_size (
          on_line string_at sys_write cmd cmd_length ip netmask self tag line remaining line_length)
  unfolding on_line
  on_line-Keeps self tag line remaining line_length =
      let size = self.received_size in
      let prompt = byte_at line 0 == b'>' in
      let answer =
        line_length == 2
        && ((byte_at line 0 == b'O' && byte_at line 1 == b'K')
            || (prompt && byte_at line 1 == b' ')) in
      if-Keeps size answer _ _ (on_answer-Keeps self tag prompt) (
        if-Keeps size (line_length == 5 && starts_with line error_text) _ _ (fail-Keeps size self) (
          if-Keeps size (leb 7 line_length && starts_with line cmgl_text) _ _
            (on_slot-Keeps self line remaining line_length
              (find_byte b',' (drop 7 line) 7 line_length))
            (if-Keeps size (leb 11 line_length && starts_with line cmti_text) _ _
              (after-Keeps size (queue_constant string_at sys_write self cmd cmd_length) line_length
                (queue_constant-received_size self))
              (line-Keeps self line_length))))

  on_search-Keeps :
      (self : ModemClient) (tag : ℕ) (line : List ℕ) (remaining : ℕ) (found : Option ℕ)
      → Keeps self.received_size
          (on_search string_at sys_write cmd cmd_length ip netmask self tag line remaining found)
  unfolding on_search
  on_search-Keeps self tag line remaining (some n) = on_line-Keeps self tag line remaining n
  on_search-Keeps self tag line remaining none =
      if-Keeps self.received_size
        (remaining == 2 && byte_at line 0 == b'>' && byte_at line 1 == b' ') _ _
        (on_line-Keeps self tag line remaining 2) (out-Keeps self.received_size)

  -- What a pass for the line at `line_start` does next.
  pub next_of : ModemClient → ℕ → ℕ → Next
  next_of self tag line_start =
      let line = drop line_start self.buffer in
      let remaining = self.received_size - line_start in
      on_search string_at sys_write cmd cmd_length ip netmask self tag line remaining
        (find_byte 0x0A line 0 remaining)

  next_of-Keeps :
      (self : ModemClient) (tag line_start : ℕ)
      → Keeps self.received_size (next_of self tag line_start)
  unfolding next_of
  next_of-Keeps self tag line_start =
      let line = drop line_start self.buffer in
      let remaining = self.received_size - line_start in
      on_search-Keeps self tag line remaining (find_byte 0x0A line 0 remaining)
