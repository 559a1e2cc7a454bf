-- ===== src/Modem/Timer/After.antt =====
-- What modemClient_onTimerFd of router/router/modemClient.c leaves of the connection and the queue.
use hc.Base.{
  ℕ, ◌^◌, ◌≡◌, ◌<◌, ◌⊎◌, inl, inr, refl, arith, Bool, true, false, ◌++◌, ◌∷◌, ◌≤◌, subst, sym, ◌∙◌,
  Option, none, some, List, [], length,
}
use hc.Modem.{
  constant_bytes, little_endian, ModemClient, Status, done, failed, unreachable, disconnect,
  queue_constant, queue_capacity,
}
use hc.Modem.Commands.{Command, constant, encode, encode_all, AllFit}
use hc.Modem.Abstract.{Writer}
use hc.Modem.Queue.{Holds}
use hc.Modem.Calls.{queue_constant-Refines}
use hc.Modem.Submit.{Works, queued, submit-done}
use hc.Modem.Timer.{give_up, fresh, queue_or_fail, poll, on_timer}

-- The addresses and sizes of the two constants.
module _ (string_at : ℕ → ℕ → List ℕ) (sys_write : Writer)
    (init_cmd init_length poll_cmd poll_length : ℕ) where
  -- Disconnected, with the timer set for the next try.
  pub record GaveUp (self : ModemClient) : Type 0 where
    pub no_fd : self.fd ≡ none
    pub retry : self.timer ≡ 10

  -- Connected, with the poll for messages behind these commands in the queue.
  pub record Polling (self : ModemClient) (fd : ℕ) (earlier : List Command) : Type 0 where
    pub connected : self.fd ≡ some fd
    pub holds : Holds self (earlier ++ (constant poll_cmd poll_length ∷ []))

  give_up-GaveUp : (self : ModemClient) → GaveUp (give_up self)
  unfolding give_up disconnect
  give_up-GaveUp self = go self.fd refl
    where
      go : (fd : Option ℕ) → self.fd ≡ fd → GaveUp (give_up self)
      go none e = simp (e, disconnect) (record { no_fd = refl; retry = refl })
      go (some n) e = simp (e, disconnect) (record { no_fd = refl; retry = refl })

  queue_or_fail-done :
      (result : Status × ModemClient) (next : ModemClient → ModemClient)
      → result.0 ≡ done
      → (queue_or_fail string_at sys_write init_cmd init_length poll_cmd poll_length) result next
        ≡ next result.1
  unfolding queue_or_fail
  queue_or_fail-done (done, self) next e = refl
  queue_or_fail-done (failed, self) next e = cc e
  queue_or_fail-done (unreachable, self) next e = cc e

  queue_or_fail-failed :
      (result : Status × ModemClient) (next : ModemClient → ModemClient)
      → result.0 ≡ failed
      → (queue_or_fail string_at sys_write init_cmd init_length poll_cmd poll_length) result next
        ≡ give_up result.1
  unfolding queue_or_fail
  queue_or_fail-failed (done, self) next e = cc e
  queue_or_fail-failed (failed, self) next e = refl
  queue_or_fail-failed (unreachable, self) next e = cc e

  -- What follows a constant that is queued behind these commands.
  queue_or_fail-either :
      (self : ModemClient) (commands : List Command) (address size : ℕ)
      (next : ModemClient → ModemClient) (P : ModemClient → Type 0)
      → Holds self commands
      → address < 2 ^ 64
      → size < 2 ^ 16
      → ((s : ModemClient)
          → s.fd ≡ self.fd
          → Holds s (commands ++ (constant address size ∷ []))
          → P (next s))
      → (GaveUp (
            (queue_or_fail string_at sys_write init_cmd init_length poll_cmd poll_length)
              (queue_constant string_at sys_write self address size)
              next)
          ⊎ P (
              (queue_or_fail string_at sys_write init_cmd init_length poll_cmd poll_length)
                (queue_constant string_at sys_write self address size)
                next))
        × (length (encode_all (commands ++ (constant address size ∷ []))) ≤ queue_capacity
            → Works string_at sys_write self.fd
            → P (
                (queue_or_fail string_at sys_write init_cmd init_length poll_cmd poll_length)
                  (queue_constant string_at sys_write self address size)
                  next))
  queue_or_fail-either self commands address size next P h a b then_P =
      let call = queue_constant string_at sys_write self address size in
      let new = constant address size ∷ [] in
      let r = queue_constant-Refines string_at sys_write self commands address size h a b in
      let behind = queued string_at sys_write call new commands self r in
      (
        elim behind [
          | inl refused ↦
              inl (
                subst GaveUp (sym (queue_or_fail-failed call next refused)) (give_up-GaveUp call.1))
          | inr taken ↦
              inr (
                subst P (sym (queue_or_fail-done call next taken.0))
                  (then_P call.1 taken.1 taken.2))
        ],
        λ room works.
            let ok : call.0 ≡ done =
              r.same_status ∙ submit-done string_at sys_write new commands self room works in
            elim behind [
              | inl refused ↦ absurd (different ok refused)
              | inr taken ↦
                  subst P (sym (queue_or_fail-done call next taken.0))
                    (then_P call.1 taken.1 taken.2)
            ],
      )
    where
      different : {status : Status} → status ≡ done → status ≡ failed → ⊥
      different p q = cc (p, q)

  -- The poll is behind these commands; or the client gave up, since the queue has no room for it or
  -- the kernel does not take all that is written.
  abbrev pub Starts : ModemClient → ℕ → List Command → Type 0
  Starts self fd earlier =
      Polling self fd earlier
      ⊎ (GaveUp self
          × (¬ (
              (length (encode_all (earlier ++ (constant poll_cmd poll_length ∷ [])))
                ≤ queue_capacity)
              × Works string_at sys_write (some fd))))

  -- What `modemClient_onTimerFd` leaves, for the descriptor and the commands before it, what
  -- sys_openat returns, and whether sys_ioctl succeeds and a command is pending.
  pub data After (r : ModemClient) (commands : List Command)
      : Option ℕ → Option ℕ → Bool → Bool → Type 0 where
    no_device : {ioctl_ok busy : Bool} → GaveUp r → After r commands none none ioctl_ok busy
    no_terminal : {fd : ℕ} {busy : Bool} → GaveUp r → After r commands none (some fd) false busy
    opened :
        {fd : ℕ} {busy : Bool}
        → Starts r fd (constant init_cmd init_length ∷ [])
        → After r commands none (some fd) true busy
    timed_out :
        {fd : ℕ} {opened : Option ℕ} {ioctl_ok : Bool}
        → GaveUp r
        → After r commands (some fd) opened ioctl_ok true
    polled :
        {fd : ℕ} {opened : Option ℕ} {ioctl_ok : Bool}
        → Starts r fd commands
        → After r commands (some fd) opened ioctl_ok false

  apart : {self : ModemClient} {fd : ℕ} → self.fd ≡ some fd → GaveUp self → ⊥
  apart p g = cc (p, g.no_fd)

  module _ (poll_small : poll_cmd < 2 ^ 64) (poll_short : poll_length < 2 ^ 16) where
    poll-Starts :
        (self : ModemClient) (fd : ℕ) (commands : List Command)
        → self.fd ≡ some fd
        → Holds self commands
        → Starts
            ((poll string_at sys_write init_cmd init_length poll_cmd poll_length) self)
            fd
            commands
    unfolding poll
    poll-Starts self fd commands e h =
        let (either, works) =
          queue_or_fail-either self commands poll_cmd poll_length (λ s. s)
            (λ s. Polling s fd commands) h poll_small poll_short
            (λ s same held. record { connected = same ∙ e; holds = held }) in
        elim either [
          | inr p ↦ inl p
          | inl g ↦ inr (
            g,
            λ (room, kernel).
                let p : Polling
                    ((poll string_at sys_write init_cmd init_length poll_cmd poll_length) self) fd
                    commands =
                  works room (subst (Works string_at sys_write) (sym e) kernel) in
                apart p.connected g,
          )
        ]

    fresh-Holds :
        (self : ModemClient) (fd : ℕ) (commands : List Command)
        → Holds self commands
        → Holds (fresh self fd) []
    unfolding fresh encode_all AllFit
    fresh-Holds self fd commands h = record {
      bytes = refl;
      capacity = h.capacity;
      bounded = omega arith;
      all_fit = tt;
      waiting = λ p e. cc;
    }

    init_fits : length (encode_all (constant init_cmd init_length ∷ [])) ≤ queue_capacity
    unfolding encode_all encode constant_bytes little_endian
    init_fits = omega arith

    connect : ModemClient → ℕ → ModemClient
    connect self fd =
        (queue_or_fail string_at sys_write init_cmd init_length poll_cmd poll_length)
          (queue_constant string_at sys_write (fresh self fd) init_cmd init_length)
          (poll string_at sys_write init_cmd init_length poll_cmd poll_length)

    connect-Starts :
        (self : ModemClient) (fd : ℕ) (commands : List Command)
        → init_cmd < 2 ^ 64
        → init_length < 2 ^ 16
        → Holds self commands
        → Starts (connect self fd) fd (constant init_cmd init_length ∷ [])
    unfolding connect fresh
    connect-Starts self fd commands a b h =
        let first = constant init_cmd init_length ∷ [] in
        let (either, works) =
          queue_or_fail-either (fresh self fd) [] init_cmd init_length
            (poll string_at sys_write init_cmd init_length poll_cmd poll_length)
            (λ s. Starts s fd first) (fresh-Holds self fd commands h) a b
            (λ s same held. poll-Starts s fd first same held) in
        elim either [
          | inr st ↦ st
          | inl g ↦ inr (g, λ (room, kernel). either_way g (room, kernel) (works init_fits kernel))
        ]
      where
        either_way :
            GaveUp (connect self fd)
            → (length
                  (encode_all (constant init_cmd init_length ∷ constant poll_cmd poll_length ∷ []))
                ≤ queue_capacity)
              × Works string_at sys_write (some fd)
            → Starts (connect self fd) fd (constant init_cmd init_length ∷ [])
            → ⊥
        either_way g both (inl p) = apart p.connected g
        either_way g both (inr (g', never)) = never both

    -- modemClient_onTimerFd, whatever the queue and the system calls: without a device, or with one
    -- that is no terminal, or if a command has timed out, the client is disconnected and its timer
    -- set for another try in 10 seconds. Otherwise the poll for messages is in the queue, behind all
    -- earlier commands, or behind the first command on a new connection; unless the queue has no
    -- room for it or the kernel does not take all that is written, and then the client is
    -- disconnected in the same way.
    pub on_timer-After :
        (self : ModemClient) (commands : List Command) (opened_fd : Option ℕ) (ioctl_ok : Bool)
        → init_cmd < 2 ^ 64
        → init_length < 2 ^ 16
        → Holds self commands
        → After
            ((on_timer string_at sys_write init_cmd init_length poll_cmd poll_length) self opened_fd
              ioctl_ok)
            commands
            self.fd
            opened_fd
            ioctl_ok
            self.pending_command
    unfolding on_timer connect
    on_timer-After self commands opened_fd ioctl_ok a b h =
        go self.fd opened_fd ioctl_ok self.pending_command refl refl
      where
        go :
            (fd opened_fd : Option ℕ) (ioctl_ok busy : Bool)
            → self.fd ≡ fd
            → self.pending_command ≡ busy
            → After
                ((on_timer string_at sys_write init_cmd init_length poll_cmd poll_length) self
                  opened_fd ioctl_ok)
                commands
                fd
                opened_fd
                ioctl_ok
                busy
        go none none ioctl_ok busy e p = no_device (simp (e, on_timer) (give_up-GaveUp self))
        go none (some n) true busy e p =
            opened (simp (e, on_timer) (connect-Starts self n commands a b h))
        go none (some n) false busy e p =
            no_terminal (simp (e, on_timer) (give_up-GaveUp (record self { fd = some n })))
        go (some n) opened_fd ioctl_ok true e p =
            timed_out (simp (e, p, on_timer) (give_up-GaveUp self))
        go (some n) opened_fd ioctl_ok false e p =
            polled (simp (e, p, on_timer) (poll-Starts self n commands e h))
