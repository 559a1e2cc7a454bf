-- ===== src/Modem/Submit.antt =====
-- What is known of the list of commands behind a call for router/router/modemClient.c that
-- succeeds, and when it does.
use hc.Base.{
  ℕ, ◌≡◌, ◌≢◌, ◌≤◌, ◌⊎◌, inl, inr, refl, ap, subst, sym, ◌∙◌, arith, true, false, Bool-cases,
  Option, none, some, List, [], ◌∷◌, ◌++◌, length, ltb, ◌==◌,
}
use hc.Modem.{ModemClient, Status, done, failed, unreachable, queue_capacity}
use hc.Modem.Commands.{Command, encode_all, text_of}
use hc.Modem.Abstract.{Outbox, Writer, attempt, deliver_from, deliver, submit}
use hc.Modem.Queue.{Holds, outbox, Refines}

-- A result with these commands and this connection, that is no unreachable place.
pub record Keeps (commands : List Command) (fd : Option ℕ) (result : Status × Outbox) : Type 0 where
  pub same_commands : result.1.commands ≡ commands
  pub same_fd : result.1.fd ≡ fd
  pub reachable : result.0 ≢ unreachable

module _ (string_at : ℕ → ℕ → List ℕ) (sys_write : Writer) where
  -- The kernel takes everything that is written to a descriptor.
  abbrev pub Works : Option ℕ → Type 0
  Works fd = (log : List (List ℕ)) (text : List ℕ) → sys_write fd log text ≡ some (length text)

  attempt-Keeps :
      (o : Outbox) (text : List ℕ) → Keeps o.commands o.fd (attempt string_at sys_write o text)
  unfolding attempt
  attempt-Keeps o text = go (sys_write o.fd o.log text) refl
    where
      go :
          (r : Option ℕ)
          → sys_write o.fd o.log text ≡ r
          → Keeps o.commands o.fd (attempt string_at sys_write o text)
      go none e =
          simp (e, attempt) (record { same_commands = refl; same_fd = refl; reachable = λ q. cc })
      go (some n) e = elim (Bool-cases (n == length text)) [
        | inl all ↦
            simp (e, all, attempt)
              (record { same_commands = refl; same_fd = refl; reachable = λ q. cc })
        | inr part ↦
            simp (e, part, attempt)
              (record { same_commands = refl; same_fd = refl; reachable = λ q. cc })
      ]

  deliver_from-Keeps :
      (o : Outbox) (cs : List Command)
      → Keeps o.commands o.fd (deliver_from string_at sys_write o cs)
  unfolding deliver_from
  deliver_from-Keeps o [] = record { same_commands = refl; same_fd = refl; reachable = λ q. cc }
  deliver_from-Keeps o (c ∷ cs) = attempt-Keeps o (text_of string_at c)

  deliver-Keeps : (o : Outbox) → Keeps o.commands o.fd (deliver string_at sys_write o)
  unfolding deliver
  deliver-Keeps o = elim (Bool-cases o.pending) [
    | inl busy ↦
        simp (busy, deliver) (record { same_commands = refl; same_fd = refl; reachable = λ q. cc })
    | inr idle ↦ simp (idle, deliver) (deliver_from-Keeps o o.commands)
  ]

  -- A call that is refused, or one that keeps the new commands behind the old.
  submit-cases :
      (new : List Command) (o : Outbox)
      → ((submit string_at sys_write new o).0 ≡ failed)
        ⊎ Keeps (o.commands ++ new) o.fd (submit string_at sys_write new o)
  unfolding submit
  submit-cases new o =
      elim (Bool-cases (ltb queue_capacity (length (encode_all (o.commands ++ new))))) [
        | inl over ↦ inl (simp (over, submit) refl)
        | inr room ↦
            inr (simp (room, submit) (deliver-Keeps (record o { commands = o.commands ++ new })))
      ]

  -- A call of the code that succeeds has the new commands at the end of its queue.
  pub queued :
      (result : Status × ModemClient) (new commands : List Command) (self : ModemClient)
      → Refines result (submit string_at sys_write new (outbox self commands))
      → (result.0 ≡ failed)
        ⊎ ((result.0 ≡ done) × (result.1.fd ≡ self.fd) × Holds result.1 (commands ++ new))
  unfolding outbox
  queued result new commands self r = elim (submit-cases new (outbox self commands)) [
    | inl refused ↦ inl (r.same_status ∙ refused)
    | inr k ↦ go result.0 refl k
  ]
    where
      go :
          (status : Status)
          → result.0 ≡ status
          → Keeps (commands ++ new) self.fd (submit string_at sys_write new (outbox self commands))
          → (result.0 ≡ failed)
            ⊎ ((result.0 ≡ done) × (result.1.fd ≡ self.fd) × Holds result.1 (commands ++ new))
      go done e k = inr (
        e,
        sym (ap (λ o. o.fd) r.same_view) ∙ k.same_fd,
        subst (Holds result.1) k.same_commands r.holds,
      )
      go failed e k = inl e
      go unreachable e k = absurd (k.reachable (sym r.same_status ∙ e))

  deliver_from-done :
      (o : Outbox) (cs : List Command)
      → Works o.fd
      → (deliver_from string_at sys_write o cs).0 ≡ done
  unfolding deliver_from attempt
  deliver_from-done o [] works = refl
  deliver_from-done o (c ∷ cs) works =
      let whole : (length (text_of string_at c) == length (text_of string_at c)) ≡ true =
        ground arith in
      simp (works o.log (text_of string_at c), whole, attempt) refl

  deliver-done : (o : Outbox) → Works o.fd → (deliver string_at sys_write o).0 ≡ done
  unfolding deliver
  deliver-done o works = elim (Bool-cases o.pending) [
    | inl busy ↦ simp (busy, deliver) refl
    | inr idle ↦ simp (idle, deliver) (deliver_from-done o o.commands works)
  ]

  -- Where the commands fit and the kernel takes what is written, the call succeeds.
  pub submit-done :
      (new commands : List Command) (self : ModemClient)
      → length (encode_all (commands ++ new)) ≤ queue_capacity
      → Works self.fd
      → (submit string_at sys_write new (outbox self commands)).0 ≡ done
  unfolding submit outbox
  submit-done new commands self room works =
      let small : ltb queue_capacity (length (encode_all (commands ++ new))) ≡ false =
        ground arith in
      simp (small, submit)
        (deliver-done (record (outbox self commands) { commands = commands ++ new }) works)
