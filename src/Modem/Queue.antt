-- ===== src/Modem/Queue.antt =====
-- The packed queue holds commands, and the first of them is written.
use hc.Base.{
  ℕ, ◌≡◌, ◌≢◌, ◌≤◌, ◌<◌, refl, ap, sym, subst, ◌∙◌, arith, Bool, true, false, Bool-cases, inl, inr,
  Option, none, some, List, [], ◌∷◌, ◌++◌, append_assoc, length, take, drop, length-take,
  length-append, take-append-drop, ◌==◌,
}
use hc.Modem.{ModemClient, Status, queue_capacity, queued_text, write_command, process_queue}
use hc.Modem.Commands.{
  Command, Fits, encode, encode_all, AllFit, encode_pos, text_of, queued_text-encode,
}
use hc.Modem.Abstract.{Outbox, Writer, attempt, deliver_from, deliver}

-- The first bytes of the queue are the commands.
pub record Holds (self : ModemClient) (commands : List Command) : Type 0 where
  pub bytes : take self.command_queue_size self.command_queue ≡ encode_all commands
  pub capacity : length self.command_queue ≡ queue_capacity
  pub bounded : self.command_queue_size ≤ queue_capacity
  pub all_fit : AllFit commands
  pub waiting : self.pending_command ≡ true → commands ≢ []

-- What a client sees of the structure.
unfoldable pub outbox : ModemClient → List Command → Outbox
outbox self commands = record {
  fd = self.fd;
  commands = commands;
  pending = self.pending_command;
  log = self.log;
}

-- A result of the code, and one of the specification.
pub record Refines (real : Status × ModemClient) (ideal : Status × Outbox) : Type 0 where
  pub same_status : real.0 ≡ ideal.0
  pub same_view : ideal.1 ≡ outbox real.1 ideal.1.commands
  pub holds : Holds real.1 ideal.1.commands

pub Fits-first : (c : Command) (cs : List Command) → AllFit (c ∷ cs) → Fits c
unfolding AllFit
Fits-first c cs h = h.0

module _ (string_at : ℕ → ℕ → List ℕ) (sys_write : Writer) where
  pub size_is :
      (self : ModemClient) (commands : List Command)
      → Holds self commands
      → self.command_queue_size ≡ length (encode_all commands)
  size_is self commands h = omega (
    arith,
    length-take self.command_queue_size self.command_queue,
    ap length h.bytes,
    h.capacity,
    h.bounded,
  )

  pub size_none : (self : ModemClient) → Holds self [] → self.command_queue_size ≡ 0
  unfolding encode_all
  size_none self h = size_is self [] h

  pub size_some :
      (self : ModemClient) (c : Command) (cs : List Command)
      → Holds self (c ∷ cs)
      → 0 < self.command_queue_size
  unfolding encode_all
  size_some self c cs h =
      omega (arith, size_is self (c ∷ cs) h, length-append (encode c) (encode_all cs), encode_pos c)

  pub head_is :
      (self : ModemClient) (c : Command) (cs : List Command)
      → Holds self (c ∷ cs)
      → self.command_queue
        ≡ encode c ++ (encode_all cs ++ drop self.command_queue_size self.command_queue)
  unfolding encode_all
  head_is self c cs h =
      sym (take-append-drop self.command_queue_size self.command_queue)
      ∙ ap (λ t. t ++ drop self.command_queue_size self.command_queue) h.bytes
      ∙ append_assoc (encode c) (encode_all cs) (drop self.command_queue_size self.command_queue)

  write_command-Refines :
      (self : ModemClient) (c : Command) (cs : List Command)
      → Holds self (c ∷ cs)
      → self.pending_command ≡ false
      → Refines
          (write_command string_at sys_write self (text_of string_at c))
          (attempt string_at sys_write (outbox self (c ∷ cs)) (text_of string_at c))
  unfolding write_command attempt outbox
  write_command-Refines self c cs h idle =
      go (sys_write self.fd self.log (text_of string_at c)) refl
    where
      text : List ℕ
      text = text_of string_at c

      logged : Bool → ℕ → ModemClient
      logged pending timer = record self {
        log = self.log ++ (text ∷ []);
        pending_command = pending;
        timer = timer;
      }

      unchanged : (pending : Bool) (timer : ℕ) → Holds (logged pending timer) (c ∷ cs)
      unchanged pending timer = record {
        bytes = h.bytes;
        capacity = h.capacity;
        bounded = h.bounded;
        all_fit = h.all_fit;
        waiting = λ p e. cc;
      }

      go :
          (r : Option ℕ)
          → sys_write self.fd self.log text ≡ r
          → Refines
              (write_command string_at sys_write self text)
              (attempt string_at sys_write (outbox self (c ∷ cs)) text)
      go none e =
          rw (e, write_command, attempt)
            (record {
              same_status = refl;
              same_view = refl;
              holds = unchanged self.pending_command self.timer;
            })
      go (some written) e = elim (Bool-cases (written == length text)) [
        | inl whole ↦
            rw (e, whole, write_command, attempt)
              (record { same_status = refl; same_view = refl; holds = unchanged true 10 })
        | inr short ↦
            rw (e, short, write_command, attempt)
              (record {
                same_status = refl;
                same_view = refl;
                holds = unchanged self.pending_command self.timer;
              })
      ]

  pub process_queue-Refines :
      (self : ModemClient) (commands : List Command)
      → Holds self commands
      → Refines
          (process_queue string_at sys_write self)
          (deliver string_at sys_write (outbox self commands))
  unfolding process_queue deliver deliver_from outbox
  process_queue-Refines self commands h = elim (Bool-cases self.pending_command) [
    | inl busy ↦
        simp (busy, process_queue, deliver)
          (record {
            same_status = refl;
            same_view =
                ap (λ p. record { fd = self.fd; commands = commands; pending = p; log = self.log })
                  (sym busy);
            holds = h;
          })
    | inr idle ↦ go commands h idle
  ]
    where
      go :
          (commands : List Command)
          → Holds self commands
          → self.pending_command ≡ false
          → Refines
              (process_queue string_at sys_write self)
              (deliver string_at sys_write (outbox self commands))
      go [] h idle =
          let none_left : (self.command_queue_size == 0) ≡ true =
            ground (arith, size_none self h) in
          simp (idle, none_left, process_queue, deliver, deliver_from)
            (record {
              same_status = refl;
              same_view =
                  ap (λ p. record { fd = self.fd; commands = []; pending = p; log = self.log })
                    (sym idle);
              holds = h;
            })
      go (c ∷ cs) h idle =
          let some_bytes : (self.command_queue_size == 0) ≡ false =
            ground (arith, size_some self c cs h) in
          let text : queued_text string_at sys_write self.command_queue
              ≡ some (text_of string_at c) =
            ap (queued_text string_at sys_write) (head_is self c cs h)
            ∙ queued_text-encode string_at sys_write c
                (encode_all cs ++ drop self.command_queue_size self.command_queue)
                (Fits-first c cs h.all_fit) in
          simp (idle, some_bytes, text, process_queue, deliver, deliver_from)
            (subst
              (λ p. Refines (write_command string_at sys_write self (text_of string_at c)) (
                attempt string_at sys_write
                  (record { fd = self.fd; commands = c ∷ cs; pending = p; log = self.log })
                  (text_of string_at c)))
              idle (write_command-Refines self c cs h idle))
