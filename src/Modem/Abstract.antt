-- ===== src/Modem/Abstract.antt =====
-- The queue of commands as a list: what a client of router/router/modemClient.c relies on.
use hc.Base.{
  ℕ, ltb, ◌==◌, if◌then◌else◌, Bool, true, false, Option, none, some, List, [], ◌∷◌, ◌++◌, length,
}
use hc.Modem.{Status, done, failed, unreachable, queue_capacity}
use hc.Modem.Commands.{Command, encode_all, text_of}

-- The commands in order. If one is pending, it is the first.
pub record Outbox : Type 0 where
  pub fd : Option ℕ
  pub commands : List Command
  pub pending : Bool
  pub log : List (List ℕ)

abbrev pub Writer : Type 0
Writer = Option ℕ → List (List ℕ) → List ℕ → Option ℕ

module _ (string_at : ℕ → ℕ → List ℕ) (sys_write : Writer) where
  -- The first command is written, whole.
  unfoldable pub attempt : Outbox → List ℕ → Status × Outbox
  attempt o text =
      let o' = record o { log = o.log ++ (text ∷ []) } in
      elim (sys_write o.fd o.log text) [
        | none ↦ (failed, o')
        | some written ↦
            if written == length text then (done, record o' { pending = true }) else (failed, o')
      ]

  unfoldable pub deliver_from : Outbox → List Command → Status × Outbox
  unfolding attempt
  deliver_from o [] = (done, o)
  deliver_from o (c ∷ cs) = attempt o (text_of string_at c)

  -- One command is under way at a time.
  unfoldable pub deliver : Outbox → Status × Outbox
  unfolding deliver_from
  deliver o = if o.pending then (done, o) else deliver_from o o.commands

  -- All of the commands are added, or none.
  unfoldable pub submit : List Command → Outbox → Status × Outbox
  unfolding deliver
  submit new o =
      if ltb queue_capacity (length (encode_all (o.commands ++ new)))
      then (failed, o)
      else deliver (record o { commands = o.commands ++ new })

  unfoldable pub acknowledge_from : Outbox → List Command → Status × Outbox
  unfolding deliver
  acknowledge_from o [] = (unreachable, o)
  acknowledge_from o (c ∷ cs) = deliver (record o { commands = cs; pending = false })

  unfoldable pub acknowledge : Outbox → Status × Outbox
  unfolding acknowledge_from
  acknowledge o = if o.pending then acknowledge_from o o.commands else (unreachable, o)
