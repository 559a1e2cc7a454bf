-- ===== src/Modem/Lines.antt =====
-- modemClient_onFd of router/router/modemClient.c: the lines that the modem sends.
use hc.Base.{
  ℕ, zero, suc, ◌+◌, ◌-◌, ◌*◌, ◌/◌, ◌%◌, ◌^◌, ltb, leb, ◌==◌, if◌then◌else◌, Bool, true, false,
  ◌&&◌, ◌||◌, Option, none, some, List, [], ◌∷◌, length, take, drop, byte_at, copy_to, get_or,
  bit_and,
}
use hc.Util.Decimal.{Parsed, fault, overflow, nothing, stored, str_to_uint, uint_to_str}
use hc.Util.Hex.{hex_table}
use hc.Modem.{
  ModemClient, Status, done, failed, unreachable, no_cmd, start_sms_tag, pending_cmd_tag,
  disconnect, process_queue, queue_constant, queue_sms, ack_pending,
}
use hc.Modem.Abstract.{Writer}

-- `sizeof(self->buffer)`
abbrev pub buffer_capacity : ℕ
buffer_capacity = 4096

-- The first index of a byte from `i` on and below `end`.
unfoldable pub find_byte : ℕ → List ℕ → ℕ → ℕ → Option ℕ
find_byte c [] i end = none
find_byte c (b ∷ bytes) i end =
    let later = find_byte c bytes (i + 1) end in
    if leb end i then none else if b == c then some i else later

-- Behind the last comma: `smsLengthIndex`, going down.
unfoldable pub behind_comma : List ℕ → ℕ → ℕ
behind_comma line zero = 0
behind_comma line (suc i) =
    let earlier = behind_comma line i in if byte_at line i == b',' then suc i else earlier

-- `mem_compare(line, text, n) == 0`
unfoldable pub starts_with : List ℕ → List ℕ → Bool
starts_with line [] = true
starts_with [] (c ∷ text) = false
starts_with (b ∷ line) (c ∷ text) = b == c && starts_with line text

abbrev pub error_text : List ℕ
error_text = b'E' ∷ b'R' ∷ b'R' ∷ b'O' ∷ b'R' ∷ []

abbrev pub cmgl_text : List ℕ
cmgl_text = b'+' ∷ b'C' ∷ b'M' ∷ b'G' ∷ b'L' ∷ b':' ∷ b' ' ∷ []

abbrev pub cmti_text : List ℕ
cmti_text = b'+' ∷ b'C' ∷ b'M' ∷ b'T' ∷ b'I' ∷ b':' ∷ b' ' ∷ 0x22 ∷ b'S' ∷ b'M' ∷ 0x22 ∷ []

-- "ip", in UCS2 as hex digits.
abbrev pub ip_text : List ℕ
ip_text = b'0' ∷ b'0' ∷ b'6' ∷ b'9' ∷ b'0' ∷ b'0' ∷ b'7' ∷ b'0' ∷ []

-- The leased address and its netmask, from the end of the array to the front.
unfoldable pub print_ip : List ℕ → ℕ → List ℕ
print_ip leased_ip netmask =
    let t1 = b'/' ∷ uint_to_str [] netmask in
    let t2 = b'.' ∷ uint_to_str t1 (byte_at leased_ip 3) in
    let t3 = b'.' ∷ uint_to_str t2 (byte_at leased_ip 2) in
    let t4 = b'.' ∷ uint_to_str t3 (byte_at leased_ip 1) in uint_to_str t4 (byte_at leased_ip 0)

-- The text in UCS2 as hex digits.
unfoldable pub ucs2_hex : List ℕ → List ℕ
ucs2_hex [] = []
ucs2_hex (c ∷ cs) =
    b'0'
    ∷ b'0'
    ∷ get_or hex_table (bit_and (c / 2 ^ 4) 0xF) 0
    ∷ get_or hex_table (bit_and c 0xF) 0
    ∷ ucs2_hex cs

-- What a pass of the loop does next: go on behind a line of this length, or leave.
pub data Next : Type 0 where
  next_line : ModemClient → ℕ → Next
  out : Next
  out_fail : ModemClient → Next
  fault_in : ModemClient → Next

-- `if (... < 0) goto out_fail; continue;`
unfoldable pub after : Status × ModemClient → ℕ → Next
after (done, self) line_length = next_line self line_length
after (failed, self) line_length = out_fail self
after (unreachable, self) line_length = fault_in self

-- How the function ends. `crashed` is a `memmove` of a negative size or an unreachable place.
pub data Outcome : Type 0 where
  returned : ModemClient → Outcome
  crashed : Outcome
  running : Outcome

module _ (string_at : ℕ → ℕ → List ℕ) (sys_write : Writer) where
  -- Behind the label `out`, where `out_fail` comes back to.
  unfoldable pub finish_lines : ℕ → ModemClient → ℕ → Outcome
  unfolding process_queue disconnect
  finish_lines zero self line_start = running
  finish_lines (suc fuel) self line_start =
      let (status, self') = process_queue string_at sys_write self in
      let again = finish_lines fuel (disconnect self') line_start in
      elim status [
        | failed ↦ again
        | unreachable ↦ crashed
        | done ↦
            if leb line_start self'.received_size
            then (let left = self'.received_size - line_start in
                returned (record self' {
                  buffer = copy_to self'.buffer 0 (take left (drop line_start self'.buffer));
                  received_size = left;
                }))
            else crashed
      ]

module _ (string_at : ℕ → ℕ → List ℕ) (sys_write : Writer) (sms_poll_cmd sms_poll_length : ℕ)
    (leased_ip : List ℕ) (leased_ip_netmask : ℕ) where
  -- `OK` or `> `.
  unfoldable pub on_answer : ModemClient → ℕ → Bool → Next
  unfolding after
  on_answer self tag prompt =
      if tag == no_cmd
      then out_fail self
      else if prompt
      then if tag == start_sms_tag
        then after (ack_pending string_at sys_write self) 1
        else out_fail self
      else if tag == start_sms_tag
      then out_fail self
      else after (ack_pending string_at sys_write self) 2

  -- An SMS that is there: from its size on.
  unfoldable pub on_sms : ModemClient → List ℕ → ℕ → ℕ → ℕ → ℕ → Next
  unfolding after starts_with ucs2_hex print_ip
  on_sms self line line_length sender_index sender_end sms_length =
      let whole_length = line_length + (sms_length * 4 + 1) in
      if sms_length == 2 && starts_with (drop (line_length + 1) line) ip_text
      then after
          (queue_sms string_at sys_write self
            (take ((sender_end - sender_index) % 2 ^ 8) (drop sender_index line))
            (ucs2_hex (print_ip leased_ip leased_ip_netmask)))
          whole_length
      else next_line self whole_length

  -- The check of the size. `(remainingBuffer - smsContentIndex - 1) / 4` is 0 where it is -1 / 4.
  unfoldable pub on_sms_length : ModemClient → List ℕ → ℕ → ℕ → ℕ → ℕ → Parsed ℕ → Next
  unfolding on_sms
  on_sms_length self line remaining line_length sender_index sender_end (stored i sms_length) =
      if ltb ((remaining - (line_length + 1) - 1) / 4) sms_length
      then out
      else on_sms self line line_length sender_index sender_end sms_length
  on_sms_length self line remaining line_length sender_index sender_end fault = fault_in self
  on_sms_length self line remaining line_length sender_index sender_end overflow = out_fail self
  on_sms_length self line remaining line_length sender_index sender_end nothing = out_fail self

  unfoldable pub on_sender : ModemClient → List ℕ → ℕ → ℕ → ℕ → Option ℕ → Next
  unfolding on_sms_length behind_comma
  on_sender self line remaining line_length sender_index none = out_fail self
  on_sender self line remaining line_length sender_index (some sender_end) =
      let sms_length_index = behind_comma line line_length in
      on_sms_length self line remaining line_length sender_index sender_end
        (str_to_uint (drop sms_length_index line) (line_length - sms_length_index))

  -- `+CMGL: `
  unfoldable pub on_slot : ModemClient → List ℕ → ℕ → ℕ → Option ℕ → Next
  unfolding on_sender find_byte
  on_slot self line remaining line_length none = out_fail self
  on_slot self line remaining line_length (some slot_number_end) =
      let sender_index = slot_number_end + 15 in
      on_sender self line remaining line_length sender_index
        (find_byte 0x22 (drop sender_index line) sender_index line_length)

  -- The body of the loop behind `foundLine`.
  unfoldable pub on_line : ModemClient → ℕ → List ℕ → ℕ → ℕ → Next
  unfolding on_answer on_slot after starts_with find_byte
  on_line self tag line remaining line_length =
      let prompt = byte_at line 0 == b'>' in
      if line_length == 2
        && ((byte_at line 0 == b'O' && byte_at line 1 == b'K')
            || (prompt && byte_at line 1 == b' '))
      then on_answer self tag prompt
      else if line_length == 5 && starts_with line error_text
      then out_fail self
      else if leb 7 line_length && starts_with line cmgl_text
      then on_slot self line remaining line_length (find_byte b',' (drop 7 line) 7 line_length)
      else if leb 11 line_length && starts_with line cmti_text
      then after (queue_constant string_at sys_write self sms_poll_cmd sms_poll_length) line_length
      else next_line self line_length

  -- The search for the end of the line, and the body.
  unfoldable pub on_search : ModemClient → ℕ → List ℕ → ℕ → Option ℕ → Next
  unfolding on_line
  on_search self tag line remaining (some line_length) = on_line self tag line remaining line_length
  on_search self tag line remaining none =
      if remaining == 2 && byte_at line 0 == b'>' && byte_at line 1 == b' '
      then on_line self tag line remaining 2
      else out

  -- The loop, on fuel, with `line_start`. A line takes a byte at least.
  unfoldable pub line_loop : ℕ → ℕ → ModemClient → ℕ → ℕ → Outcome
  unfolding on_search finish_lines find_byte
  line_loop zero rounds self tag line_start = running
  line_loop (suc fuel) rounds self tag line_start =
      let line = drop line_start self.buffer in
      let remaining = self.received_size - line_start in
      elim (on_search self tag line remaining (find_byte 0x0A line 0 remaining)) [
        | next_line self' line_length ↦
            line_loop fuel rounds self' tag (line_start + (line_length + 1))
        | out ↦ finish_lines string_at sys_write rounds self line_start
        | out_fail self' ↦ finish_lines string_at sys_write rounds (disconnect self') line_start
        | fault_in self' ↦ crashed
      ]

  -- `modemClient_onFd` with what `sys_read` answers, and at most `rounds` times `out_fail`.
  unfoldable pub on_fd : ℕ → ModemClient → Option (List ℕ) → Outcome
  unfolding line_loop
  on_fd rounds self none = finish_lines string_at sys_write rounds (disconnect self) 0
  on_fd rounds self (some []) = finish_lines string_at sys_write rounds (disconnect self) 0
  on_fd rounds self (some (b ∷ bytes)) =
      let received = b ∷ bytes in
      let self' = record self {
        buffer = copy_to self.buffer self.received_size received;
        received_size = self.received_size + length received;
      } in
      line_loop (buffer_capacity + 3) rounds self' (pending_cmd_tag self') 0
