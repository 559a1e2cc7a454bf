-- ===== src/Modem/Tests.antt =====
-- A queue at work, and two inputs that the source does not survive.
use hc.Base.{
  ℕ, suc, ◌%◌, ◌≡◌, refl, arith, true, false, none, some, List, [], ◌∷◌, ◌++◌, length, replicate,
  copy_to,
}
use hc.Util.Decimal.{str_to_uint, parse_loop}
use hc.Modem.{
  constant_tag, ModemClient, done, failed, process_queue, write_command, queued_text,
  load_little_endian, little_endian, constant_bytes, ack_pending, ack_bytes, ack_size, disconnect,
}
use hc.Modem.Commands.{constant, encode, encode_all, Fits, AllFit}
use hc.Modem.Abstract.{Writer}
use hc.Modem.Queue.{Holds, outbox}
use hc.Modem.Lines.{
  returned, crashed, running, cmgl_text, on_fd, line_loop, on_search, on_line, on_answer, on_slot,
  on_sender, on_sms_length, on_sms, after, find_byte, behind_comma, starts_with, finish_lines,
}
use hc.Modem.Timer.{on_timer}
use hc.Modem.Timer.After.{After, on_timer-After}
use hc.Modem.Passes.Ends.{Ends, line_loop-Ends}
use hc.Modem.Run.{
  Event, constant_event, sms_event, ack_event, InRange, run, ideal_run, run-ideal_run,
}
use hc.Modem.Hang.{finish_lines_lem, compacted}

abbrev connected : ModemClient
connected = record {
  fd = some 5;
  received_size = 0;
  command_queue_size = 0;
  buffer = replicate 4096 0;
  command_queue = replicate 4103 0;
  pending_command = false;
  timer = 0;
  log = [];
}

-- A constant is its address, as often as its length says.
abbrev strings : ℕ → ℕ → List ℕ
strings address size = replicate size (address % 256)

abbrev kernel : Writer
kernel none log text = none
kernel (some fd) log text = some (length text)

-- Only one write goes through.
abbrev once : Writer
once none log text = none
once (some fd) [] text = some (length text)
once (some fd) (t ∷ ts) text = none

connected-Holds : Holds connected []
unfolding encode_all AllFit
connected-Holds = record {
  bytes = refl;
  capacity = refl;
  bounded = omega arith;
  all_fit = tt;
  waiting = λ p e. cc;
}

abbrev events : List Event
events =
    constant_event 7 3
    ∷ sms_event (b'1' ∷ b'2' ∷ []) (b'0' ∷ b'0' ∷ b'6' ∷ b'1' ∷ [])
    ∷ ack_event
    ∷ ack_event
    ∷ []

run-ideal_run_example :
    let real = run strings kernel events connected in
    let ideal = ideal_run strings kernel events (outbox connected []) in
    (real.0 ≡ ideal.0) × (ideal.1 ≡ outbox real.1 ideal.1.commands) × Holds real.1 ideal.1.commands
unfolding InRange
run-ideal_run_example =
    run-ideal_run strings kernel events connected [] connected-Holds
      (omega arith, omega arith, (omega arith, omega arith, tt))

-- A modem that is gone, and a command for it.
abbrev gone : Writer
gone fd log text = none

abbrev one_waiting : ModemClient
one_waiting = record connected {
  command_queue_size = 11;
  command_queue = constant_tag ∷ 3 ∷ 0 ∷ 7 ∷ replicate 4099 0;
}

one_waiting-Holds : Holds one_waiting (constant 7 3 ∷ [])
unfolding encode_all AllFit encode Fits constant_bytes little_endian
one_waiting-Holds = record {
  bytes = refl;
  capacity = refl;
  bounded = omega arith;
  all_fit = ((omega arith, omega arith), tt);
  waiting = λ p e. cc;
}

finish_lines_lem_example :
    let result = process_queue strings gone one_waiting in
    (result.0 ≡ done
      → (rounds : ℕ)
      → finish_lines strings gone (suc rounds) one_waiting 0
        ≡ returned (compacted strings gone result.1 0))
    × (result.0 ≡ failed → (rounds : ℕ) → finish_lines strings gone rounds one_waiting 0 ≡ running)
finish_lines_lem_example =
    finish_lines_lem strings gone one_waiting (constant 7 3 ∷ []) 0 one_waiting-Holds
      (λ log text. refl) (omega arith)

one_waiting_stays : finish_lines strings gone 50 one_waiting 0 ≡ running
unfolding finish_lines process_queue queued_text write_command load_little_endian disconnect
one_waiting_stays = refl

-- "OK", twice at once: the second is for no command.
one_pending : ModemClient
one_pending = record one_waiting { pending_command = true }

two_answers :
    on_fd strings kernel 7 30 [] 0 5 one_pending
      (some (b'O' ∷ b'K' ∷ 0x0A ∷ b'O' ∷ b'K' ∷ 0x0A ∷ []))
    ≡ crashed
unfolding one_pending on_fd line_loop on_search on_line on_answer after find_byte starts_with
    ack_pending ack_bytes ack_size process_queue finish_lines copy_to
two_answers = refl

-- The header of an empty SMS at the end of what is received.
abbrev empty_sms : List ℕ
empty_sms = cmgl_text ++ (b'1' ∷ b',' ∷ replicate 14 b'x' ++ (0x22 ∷ b',' ∷ b'0' ∷ 0x0A ∷ []))

empty_sms_crash : on_fd strings kernel 7 30 [] 0 5 connected (some empty_sms) ≡ crashed
unfolding on_fd line_loop on_search on_line on_slot on_sender on_sms_length on_sms behind_comma
    after find_byte starts_with str_to_uint parse_loop process_queue finish_lines copy_to
empty_sms_crash = refl

-- The structure that modemClient_init leaves, and a modem that answers.
abbrev started : ModemClient
started = record connected { fd = none; timer = 20 }

started-Holds : Holds started []
unfolding encode_all AllFit
started-Holds = record {
  bytes = refl;
  capacity = refl;
  bounded = omega arith;
  all_fit = tt;
  waiting = λ p e. cc;
}

on_timer-After_example :
    After strings kernel 7 61 9 30
      (on_timer strings kernel 7 61 9 30 started (some 6) true)
      []
      none
      (some 6)
      true
      false
on_timer-After_example =
    on_timer-After strings kernel 7 61 9 30 (omega arith) (omega arith) started [] (some 6) true
      (omega arith) (omega arith) started-Holds

-- One line, and passes to spare.
abbrev one_line : ModemClient
one_line = record connected { received_size = 3; buffer = b'O' ∷ b'K' ∷ 0x0A ∷ replicate 4093 0 }

line_loop-Ends_example : Ends strings kernel 7 30 [] 0 4 0 one_line 0
line_loop-Ends_example = line_loop-Ends strings kernel 7 30 [] 0 3 0 one_line 0 (omega arith)
