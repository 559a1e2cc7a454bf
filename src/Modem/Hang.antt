-- ===== src/Modem/Hang.antt =====
-- What a failed write leads to in modemClient_onFd.
use hc.Base.{
  ℕ, zero, suc, ◌-◌, ◌≡◌, ◌≤◌, take, drop, copy_to, refl, ap, ap₂, sym, subst, ◌∙◌, arith, Bool,
  true, false, ◌||◌, Bool-cases, inl, inr, Option, none, some, List, [], ◌∷◌, length, leb, ◌==◌,
}
use hc.Modem.{
  ModemClient, Status, done, failed, unreachable, queued_text, write_command, process_queue,
  disconnect,
}
use hc.Modem.Commands.{Command, text_of}
use hc.Modem.Abstract.{Outbox, Writer, attempt, deliver_from, deliver}
use hc.Modem.Queue.{Holds, outbox, process_queue-Refines}
use hc.Modem.Lines.{returned, running, finish_lines}

-- Commands wait, none of them pending, and nothing is connected.
pub record Stuck (self : ModemClient) : Type 0 where
  pub first : Command
  pub others : List Command
  pub holds : Holds self (first ∷ others)
  pub idle : self.pending_command ≡ false
  pub closed : self.fd ≡ none

disconnect-Stuck :
    (self : ModemClient) (c : Command) (cs : List Command)
    → Holds self (c ∷ cs)
    → self.pending_command ≡ false
    → Stuck (disconnect self)
unfolding disconnect
disconnect-Stuck self c cs h idle = go self.fd refl
  where
    go : (fd : Option ℕ) → self.fd ≡ fd → Stuck (disconnect self)
    go none e =
        simp (e, disconnect) (record { first = c; others = cs; holds = h; idle = idle; closed = e })
    go (some n) e =
        simp (e, disconnect)
          (record {
            first = c;
            others = cs;
            holds = record {
              bytes = h.bytes;
              capacity = h.capacity;
              bounded = h.bounded;
              all_fit = h.all_fit;
              waiting = h.waiting;
            };
            idle = idle;
            closed = refl;
          })

module _ (string_at : ℕ → ℕ → List ℕ) (sys_write : Writer) where
  -- A failure leaves the commands as they are, with none pending.
  record Waiting (o : Outbox) : Type 0 where
    pub command : Command
    pub more : List Command
    pub commands_are : o.commands ≡ command ∷ more
    pub not_pending : o.pending ≡ false

  attempt-failed :
      (fd : Option ℕ) (c : Command) (cs : List Command) (log : List (List ℕ)) (text : List ℕ)
      → let o : Outbox = record { fd = fd; commands = c ∷ cs; pending = false; log = log } in
        (attempt string_at sys_write o text).0 ≡ failed
        → Waiting (attempt string_at sys_write o text).1
  unfolding attempt
  attempt-failed fd c cs log text = go (sys_write fd log text) refl
    where
      o : Outbox
      o = record { fd = fd; commands = c ∷ cs; pending = false; log = log }

      go :
          (r : Option ℕ)
          → sys_write fd log text ≡ r
          → (attempt string_at sys_write o text).0 ≡ failed
          → Waiting (attempt string_at sys_write o text).1
      go none e =
          rw (e, attempt)
            (λ f. record { command = c; more = cs; commands_are = refl; not_pending = refl })
      go (some written) e = elim (Bool-cases (written == length text)) [
        | inl whole ↦ rw (e, whole, attempt) (λ f. cc)
        | inr short ↦
            rw (e, short, attempt)
              (λ f. record { command = c; more = cs; commands_are = refl; not_pending = refl })
      ]

  deliver-failed :
      (fd : Option ℕ) (commands : List Command) (pending : Bool) (log : List (List ℕ))
      → let o : Outbox = record { fd = fd; commands = commands; pending = pending; log = log } in
        (deliver string_at sys_write o).0 ≡ failed → Waiting (deliver string_at sys_write o).1
  unfolding deliver deliver_from
  deliver-failed fd commands true log f = cc
  deliver-failed fd [] false log f = cc
  deliver-failed fd (c ∷ cs) false log f = attempt-failed fd c cs log (text_of string_at c) f

  process_queue-failed :
      (self : ModemClient) (commands : List Command)
      → Holds self commands
      → (process_queue string_at sys_write self).0 ≡ failed
      → Stuck (disconnect (process_queue string_at sys_write self).1)
  unfolding outbox
  process_queue-failed self commands h f =
      let r = process_queue-Refines string_at sys_write self commands h in
      let w =
        deliver-failed self.fd commands self.pending_command self.log (sym r.same_status ∙ f) in
      disconnect-Stuck (process_queue string_at sys_write self).1 w.command w.more
        (subst (Holds (process_queue string_at sys_write self).1) w.commands_are r.holds)
        (sym (ap (λ o. o.pending) r.same_view) ∙ w.not_pending)

  -- Nothing can be written to what is closed: EBADF.
  abbrev pub Ebadf : Type 0
  Ebadf = (log : List (List ℕ)) (text : List ℕ) → sys_write none log text ≡ none

  deliver-closed :
      Ebadf
      → (c : Command) (cs : List Command) (log : List (List ℕ))
      → (deliver string_at sys_write
          (record { fd = none; commands = c ∷ cs; pending = false; log = log })).0
        ≡ failed
  unfolding deliver deliver_from attempt
  deliver-closed closed c cs log = rw (closed log (text_of string_at c), attempt) refl

  Stuck-failed :
      (self : ModemClient)
      → Ebadf
      → Stuck self
      → (process_queue string_at sys_write self).0 ≡ failed
  unfolding outbox
  Stuck-failed self closed s =
      let r = process_queue-Refines string_at sys_write self (s.first ∷ s.others) s.holds in
      r.same_status
      ∙ ap₂
          (λ fd pending.
            (deliver string_at sys_write (record {
              fd = fd;
              commands = s.first ∷ s.others;
              pending = pending;
              log = self.log;
            })).0)
          s.closed s.idle
      ∙ deliver-closed closed s.first s.others self.log

  finish_lines-Stuck :
      (rounds : ℕ) (self : ModemClient) (line_start : ℕ)
      → Ebadf
      → Stuck self
      → finish_lines string_at sys_write rounds self line_start ≡ running
  unfolding finish_lines
  finish_lines-Stuck zero self line_start closed s = refl
  finish_lines-Stuck (suc rounds) self line_start closed s =
      let f = Stuck-failed self closed s in
      let again = process_queue-failed self (s.first ∷ s.others) s.holds f in
      rw (f, finish_lines)
        (finish_lines-Stuck rounds (disconnect (process_queue string_at sys_write self).1)
          line_start closed again)

  write_command-received_size :
      (self : ModemClient) (text : List ℕ)
      → (write_command string_at sys_write self text).1.received_size ≡ self.received_size
  unfolding write_command
  write_command-received_size self text = go (sys_write self.fd self.log text) refl
    where
      go :
          (r : Option ℕ)
          → sys_write self.fd self.log text ≡ r
          → (write_command string_at sys_write self text).1.received_size ≡ self.received_size
      go none e = rw (e, write_command) refl
      go (some written) e = elim (Bool-cases (written == length text)) [
        | inl whole ↦ rw (e, whole, write_command) refl
        | inr short ↦ rw (e, short, write_command) refl
      ]

  pub process_queue-received_size :
      (self : ModemClient)
      → (process_queue string_at sys_write self).1.received_size ≡ self.received_size
  unfolding process_queue
  process_queue-received_size self =
      elim (Bool-cases (self.pending_command || self.command_queue_size == 0)) [
        | inl nothing_to_do ↦ simp (nothing_to_do, process_queue) refl
        | inr next ↦
            simp (next, process_queue) (go (queued_text string_at sys_write self.command_queue))
      ]
    where
      go :
          (r : Option (List ℕ))
          → let result : Status × ModemClient = elim r [
            | none ↦ (unreachable, self)
            | some text ↦ write_command string_at sys_write self text
          ] in
            result.1.received_size ≡ self.received_size
      go none = refl
      go (some text) = write_command-received_size self text

  -- The structure behind the label `out`: bytes that are not used up come to the start.
  unfoldable pub compacted : ModemClient → ℕ → ModemClient
  compacted self line_start =
      let left = self.received_size - line_start in
      record self {
        buffer = copy_to self.buffer 0 (take left (drop line_start self.buffer));
        received_size = left;
      }

  -- How modemClient_onFd ends behind its loop, when the queue holds commands and a write to no file
  -- fails. If nothing is left to write or the write is whole, it returns, with the bytes that are not
  -- used up at the start of the buffer. If the write fails, it has not returned after any number of
  -- passes of the label `out`.
  pub finish_lines_lem :
      (self : ModemClient) (commands : List Command) (line_start : ℕ)
      → Holds self commands
      → Ebadf
      → line_start ≤ self.received_size
      → let result = process_queue string_at sys_write self in
        (result.0 ≡ done
          → (rounds : ℕ)
          → finish_lines string_at sys_write (suc rounds) self line_start
            ≡ returned (compacted result.1 line_start))
        × (result.0 ≡ failed
            → (rounds : ℕ) → finish_lines string_at sys_write rounds self line_start ≡ running)
  unfolding finish_lines compacted
  finish_lines_lem self commands line_start h closed le = (
    λ whole rounds.
        let fits : leb line_start (process_queue string_at sys_write self).1.received_size ≡ true =
          ground (arith, process_queue-received_size self) in
        rw (whole, fits, finish_lines) refl,
    λ part rounds. stays rounds part,
  )
    where
      stays :
          (rounds : ℕ)
          → (process_queue string_at sys_write self).0 ≡ failed
          → finish_lines string_at sys_write rounds self line_start ≡ running
      stays zero f = refl
      stays (suc rounds) f =
          rw (f, finish_lines)
            (finish_lines-Stuck rounds (disconnect (process_queue string_at sys_write self).1)
              line_start closed (process_queue-failed self commands h f))
