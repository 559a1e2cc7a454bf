-- ===== src/Modem/Calls.antt =====
-- The calls that change the packed queue change the list of commands.
use hc.Base.{
  ℕ, ◌+◌, ◌-◌, ◌^◌, ◌≡◌, ◌≤◌, ◌<◌, refl, ap, ap₂, sym, subst, ◌∙◌, arith, true, false, Bool-cases,
  inl, inr, none, some, List, [], ◌∷◌, ◌++◌, append_assoc, append-nil, length, take, drop,
  length-append, length-copy_to, take-copy_to_behind, drop-append, drop_all, byte_at, copy_to, ltb,
  if◌then◌else◌,
}
use hc.Modem.{
  little_endian, pending_cmd_tag, ModemClient, queue_capacity, constant_size, enqueue,
  constant_bytes, start_sms_bytes, send_sms_bytes, queue_constant, queue_sms, ack_size, ack_bytes,
  ack_pending,
}
use hc.Modem.Commands.{
  Command, constant, start_sms, send_sms, Fits, encode, encode_all, encode_all-append, AllFit,
  AllFit-append, take-length, tag_of, byte_at-encode, ack_size-encode,
}
use hc.Modem.Abstract.{Writer, submit, acknowledge_from, acknowledge}
use hc.Modem.Queue.{Holds, outbox, Refines, Fits-first, size_is, head_is, process_queue-Refines}

module _ (string_at : ℕ → ℕ → List ℕ) (sys_write : Writer) where
  -- Commands at the end.
  enqueue-Holds :
      (self : ModemClient) (commands : List Command) (c : Command)
      → Holds self commands
      → Fits c
      → self.command_queue_size + length (encode c) ≤ queue_capacity
      → Holds (enqueue self (encode c)) (commands ++ (c ∷ []))
  unfolding enqueue encode_all AllFit
  enqueue-Holds self commands c h fits room = record {
    bytes =
        take-copy_to_behind self.command_queue (encode c) self.command_queue_size
          (omega (arith, h.capacity))
        ∙ ap (λ t. t ++ encode c) h.bytes
        ∙ ap (λ t. encode_all commands ++ t) (sym (append-nil (encode c)))
        ∙ sym (encode_all-append commands (c ∷ []));
    capacity = length-copy_to self.command_queue self.command_queue_size (encode c) ∙ h.capacity;
    bounded = room;
    all_fit = AllFit-append commands (c ∷ []) h.all_fit (fits, tt);
    waiting = λ busy e. h.waiting busy (front commands e);
  }
    where
      front : (cs : List Command) → cs ++ (c ∷ []) ≡ [] → cs ≡ []
      front [] e = refl
      front (d ∷ ds) e = cc

  used :
      (self : ModemClient) (commands : List Command) (c : Command)
      → Holds self commands
      → length (encode_all (commands ++ (c ∷ []))) ≡ self.command_queue_size + length (encode c)
  unfolding encode_all
  used self commands c h =
      ap length (encode_all-append commands (c ∷ []))
      ∙ omega (
        arith,
        length-append (encode_all commands) (encode c ++ []),
        ap length (append-nil (encode c)),
        size_is string_at sys_write self commands h,
      )

  constant-length : (address size : ℕ) → length (encode (constant address size)) ≡ constant_size
  unfolding encode constant_bytes little_endian
  constant-length address size = refl

  pub queue_constant-Refines :
      (self : ModemClient) (commands : List Command) (address size : ℕ)
      → Holds self commands
      → address < 2 ^ 64
      → size < 2 ^ 16
      → Refines
          (queue_constant string_at sys_write self address size)
          (submit string_at sys_write (constant address size ∷ []) (outbox self commands))
  unfolding queue_constant submit encode Fits outbox enqueue constant_bytes
  queue_constant-Refines self commands address size h a b =
      let c = constant address size in
      let all : length (encode_all (commands ++ (c ∷ [])))
          ≡ self.command_queue_size + constant_size =
        used self commands c h
        ∙ ap (λ n. self.command_queue_size + n) (constant-length address size) in
      elim (Bool-cases (ltb queue_capacity (length (encode_all (commands ++ (c ∷ [])))))) [
        | inl over ↦
            let over' : ltb (queue_capacity - constant_size) self.command_queue_size ≡ true =
              ground arith in
            simp (over, over', queue_constant, submit)
              (record { same_status = refl; same_view = refl; holds = h })
        | inr room ↦
            let room' : ltb (queue_capacity - constant_size) self.command_queue_size ≡ false =
              ground arith in
            simp (room, room', queue_constant, submit)
              (process_queue-Refines string_at sys_write (enqueue self (encode c))
                (commands ++ (c ∷ []))
                (enqueue-Holds self commands c h (a, b)
                  (ground (arith, constant-length address size))))
      ]

  start_sms-length : (number : List ℕ) → length (encode (start_sms number)) ≡ 2 + length number
  unfolding encode start_sms_bytes
  start_sms-length number = omega arith

  send_sms-length : (sms : List ℕ) → length (encode (send_sms sms)) ≡ 3 + length sms
  unfolding encode send_sms_bytes little_endian
  send_sms-length sms = omega arith

  used_two :
      (self : ModemClient) (commands : List Command) (number sms : List ℕ)
      → Holds self commands
      → length (encode_all ((commands ++ (start_sms number ∷ [])) ++ (send_sms sms ∷ [])))
        ≡ self.command_queue_size + (2 + length number) + (3 + length sms)
  unfolding encode_all
  used_two self commands number sms h =
      ap length (encode_all-append (commands ++ (start_sms number ∷ [])) (send_sms sms ∷ []))
      ∙ omega (
        arith,
        length-append (encode_all (commands ++ (start_sms number ∷ [])))
            (encode (send_sms sms) ++ []),
        ap length (append-nil (encode (send_sms sms))),
        used self commands (start_sms number) h,
        start_sms-length number,
        send_sms-length sms,
      )

  pub queue_sms-Refines :
      (self : ModemClient) (commands : List Command) (number sms : List ℕ)
      → Holds self commands
      → length number < 2 ^ 8
      → length sms < 2 ^ 16
      → Refines
          (queue_sms string_at sys_write self number sms)
          (submit string_at sys_write (start_sms number ∷ send_sms sms ∷ []) (outbox self commands))
  unfolding queue_sms submit encode Fits outbox enqueue start_sms_bytes send_sms_bytes
  queue_sms-Refines self commands number sms h a b =
      let s = start_sms number in
      let t = send_sms sms in
      let two : commands ++ (s ∷ t ∷ []) ≡ (commands ++ (s ∷ [])) ++ (t ∷ []) =
        sym (append_assoc commands (s ∷ []) (t ∷ [])) in
      let all : length (encode_all ((commands ++ (s ∷ [])) ++ (t ∷ [])))
          ≡ self.command_queue_size + (2 + length number) + (3 + length sms) =
        used_two self commands number sms h in
      elim (Bool-cases
        (ltb queue_capacity (length (encode_all ((commands ++ (s ∷ [])) ++ (t ∷ [])))))) [
          | inl over ↦
              let over' : ltb queue_capacity
                    (self.command_queue_size + (2 + length number) + (3 + length sms))
                  ≡ true =
                ground arith in
              simp (two, over, over', queue_sms, submit)
                (record { same_status = refl; same_view = refl; holds = h })
          | inr room ↦
              let room' : ltb queue_capacity
                    (self.command_queue_size + (2 + length number) + (3 + length sms))
                  ≡ false =
                ground arith in
              let one =
                enqueue-Holds self commands s h a (ground (arith, start_sms-length number)) in
              simp (two, room, room', queue_sms, submit)
                (process_queue-Refines string_at sys_write
                  (enqueue (enqueue self (encode s)) (encode t))
                  ((commands ++ (s ∷ [])) ++ (t ∷ []))
                  (enqueue-Holds (enqueue self (encode s)) (commands ++ (s ∷ [])) t one b
                    (ground (arith, start_sms-length number, send_sms-length sms))))
        ]

  -- The command that is acknowledged leaves the queue.
  acked : ModemClient → Command → ModemClient
  acked self c =
      let left = self.command_queue_size - length (encode c) in
      record self {
        command_queue =
            copy_to self.command_queue 0 (take left (drop (length (encode c)) self.command_queue));
        command_queue_size = left;
        pending_command = false;
      }

  acked-Holds :
      (self : ModemClient) (c : Command) (cs : List Command)
      → Holds self (c ∷ cs)
      → Holds (acked self c) cs
  unfolding acked encode_all AllFit
  acked-Holds self c cs h =
      let n = length (encode c) in
      let rest = encode_all cs ++ drop self.command_queue_size self.command_queue in
      let size : self.command_queue_size ≡ n + length (encode_all cs) =
        size_is string_at sys_write self (c ∷ cs) h ∙ length-append (encode c) (encode_all cs) in
      let left = self.command_queue_size - n in
      let left_is : left ≡ length (encode_all cs) = omega arith in
      let behind : drop n self.command_queue ≡ rest =
        ap (drop n) (head_is string_at sys_write self c cs h)
        ∙ drop-append (encode c) rest n (omega arith)
        ∙ ap (λ t. t ++ rest) (drop_all (encode c) n (omega arith)) in
      let moved = take left (drop n self.command_queue) in
      let moved_is : moved ≡ encode_all cs =
        ap₂ take left_is behind
        ∙ take-length (encode_all cs) (drop self.command_queue_size self.command_queue) in
      let moved_length : 0 + length moved ≡ left = omega (arith, ap length moved_is) in
      record {
        bytes =
            ap (λ k. take k (copy_to self.command_queue 0 moved)) (sym moved_length)
            ∙ take-copy_to_behind self.command_queue moved 0 (omega (arith, h.capacity, h.bounded))
            ∙ moved_is;
        capacity = length-copy_to self.command_queue 0 moved ∙ h.capacity;
        bounded = omega (arith, h.bounded);
        all_fit = h.all_fit.1;
        waiting = λ p. cc;
      }

  ack_size-none : (queue : List ℕ) → ack_size queue 0 ≡ none
  unfolding ack_size
  ack_size-none queue = refl

  -- An acknowledgement takes the first command off the list, when one is pending.
  pub ack_pending-Refines :
      (self : ModemClient) (commands : List Command)
      → Holds self commands
      → Refines
          (ack_pending string_at sys_write self)
          (acknowledge string_at sys_write (outbox self commands))
  unfolding ack_pending ack_bytes acknowledge acknowledge_from outbox acked
  ack_pending-Refines self commands h = elim (Bool-cases self.pending_command) [
    | inr idle ↦
        let no_size : ack_size self.command_queue (pending_cmd_tag self) ≡ none =
          ap (λ p. ack_size self.command_queue (if p then byte_at self.command_queue 0 else 0)) idle
          ∙ ack_size-none self.command_queue in
        subst (λ r. Refines r (acknowledge string_at sys_write (outbox self commands)))
          (sym (ap (ack_bytes string_at sys_write self) no_size))
          (simp (idle, acknowledge)
            (record {
              same_status = refl;
              same_view =
                  ap
                    (λ p. record { fd = self.fd; commands = commands; pending = p; log = self.log })
                    (sym idle);
              holds = h;
            }))
    | inl busy ↦ go commands h busy
  ]
    where
      go :
          (commands : List Command)
          → Holds self commands
          → self.pending_command ≡ true
          → Refines
              (ack_pending string_at sys_write self)
              (acknowledge string_at sys_write (outbox self commands))
      go [] h busy = absurd (h.waiting busy refl)
      go (c ∷ cs) h busy =
          let rest = encode_all cs ++ drop self.command_queue_size self.command_queue in
          let queue = head_is string_at sys_write self c cs h in
          let tag : byte_at self.command_queue 0 ≡ tag_of c =
            ap (λ q. byte_at q 0) queue ∙ byte_at-encode c rest in
          let size : ack_size self.command_queue (byte_at self.command_queue 0)
              ≡ some (length (encode c)) =
            ap₂ ack_size queue tag ∙ ack_size-encode c rest (Fits-first c cs h.all_fit) in
          let size' : ack_size self.command_queue (pending_cmd_tag self)
              ≡ some (length (encode c)) =
            ap (λ p. ack_size self.command_queue (if p then byte_at self.command_queue 0 else 0))
              busy
            ∙ size in
          subst (λ r. Refines r (acknowledge string_at sys_write (outbox self (c ∷ cs))))
            (sym (ap (ack_bytes string_at sys_write self) size'))
            (simp (busy, acknowledge, acknowledge_from)
              (process_queue-Refines string_at sys_write (acked self c) cs
                (acked-Holds self c cs h)))
