-- ===== src/Modem/Passes/Ends.antt =====
-- The loop of modemClient_onFd in router/router/modemClient.c over the lines ends.
use hc.Base.{subst, ℕ, zero, suc, ◌+◌, ◌-◌, ◌≡◌, ◌≤◌, refl, ap, ◌∙◌, arith, List, drop}
use hc.Modem.{disconnect, ModemClient}
use hc.Modem.Abstract.{Writer}
use hc.Modem.Lines.{
  Outcome, crashed, finish_lines, Next, next_line, out, out_fail, fault_in, find_byte, on_search,
  line_loop,
}
use hc.Modem.Passes.{Keeps, next_of, next_of-Keeps, find_byte-none}

module _ (string_at : ℕ → ℕ → List ℕ) (sys_write : Writer) (cmd cmd_length : ℕ) (ip : List ℕ)
    (netmask : ℕ) where
  -- How the passes from the line at `line_start` on end, without a bound on their number, and what
  -- then follows for a number of rounds behind the label `out`.
  pub data Leaves (tag : ℕ) : ModemClient → ℕ → (ℕ → Outcome) → Type 0 where
    by_out :
        {self : ModemClient} {line_start : ℕ}
        → next_of string_at sys_write cmd cmd_length ip netmask self tag line_start ≡ out
        → Leaves tag self line_start
            (λ rounds. finish_lines string_at sys_write rounds self line_start)
    by_out_fail :
        {self self' : ModemClient} {line_start : ℕ}
        → next_of string_at sys_write cmd cmd_length ip netmask self tag line_start ≡ out_fail self'
        → Leaves tag self line_start
            (λ rounds. finish_lines string_at sys_write rounds (disconnect self') line_start)
    by_fault :
        {self self' : ModemClient} {line_start : ℕ}
        → next_of string_at sys_write cmd cmd_length ip netmask self tag line_start ≡ fault_in self'
        → Leaves tag self line_start (λ rounds. crashed)
    by_line :
        {self self' : ModemClient} {line_start line_length : ℕ} {ends : ℕ → Outcome}
        → next_of string_at sys_write cmd cmd_length ip netmask self tag line_start
          ≡ next_line self' line_length
        → Leaves tag self' (line_start + (line_length + 1)) ends
        → Leaves tag self line_start ends

  -- The passes end, and the loop gives what follows, with this number of passes or more.
  pub record Ends (passes tag : ℕ) (self : ModemClient) (line_start : ℕ) : Type 0 where
    pub ends : ℕ → Outcome
    pub leaves : Leaves tag self line_start ends
    pub result :
        (extra rounds : ℕ)
        → line_loop string_at sys_write cmd cmd_length ip netmask
            (passes + extra)
            rounds
            self
            tag
            line_start
          ≡ ends rounds

  -- Behind the last byte the loop is left.
  next_of-out :
      (self : ModemClient) (tag line_start : ℕ)
      → self.received_size ≤ line_start
      → next_of string_at sys_write cmd cmd_length ip netmask self tag line_start ≡ out
  unfolding next_of on_search
  next_of-out self tag line_start h =
      let line = drop line_start self.buffer in
      let z : self.received_size - line_start ≡ 0 = omega arith in
      ap
        (λ r.
          on_search string_at sys_write cmd cmd_length ip netmask self tag line r
            (find_byte 0x0A line 0 r))
        z
      ∙ ap (on_search string_at sys_write cmd cmd_length ip netmask self tag line 0)
          (find_byte-none 0x0A line)

  -- A pass that leaves the loop, or goes on to one that ends.
  one_pass-Ends :
      (passes tag : ℕ) (self : ModemClient) (line_start : ℕ)
      → ((self' : ModemClient) (n : ℕ)
          → next_of string_at sys_write cmd cmd_length ip netmask self tag line_start
            ≡ next_line self' n
          → Ends passes tag self' (line_start + (n + 1)))
      → Ends (suc passes) tag self line_start
  unfolding line_loop next_of
  one_pass-Ends passes tag self line_start rest =
      go (next_of string_at sys_write cmd cmd_length ip netmask self tag line_start) refl
    where
      one_more : (extra : ℕ) → suc passes + extra ≡ suc (passes + extra)
      one_more extra = omega arith

      go :
          (r : Next)
          → next_of string_at sys_write cmd cmd_length ip netmask self tag line_start ≡ r
          → Ends (suc passes) tag self line_start
      go out e = record {
        ends = _;
        leaves = by_out e;
        result = λ extra rounds. rw (one_more extra, e, line_loop) refl;
      }
      go (out_fail self') e = record {
        ends = _;
        leaves = by_out_fail e;
        result = λ extra rounds. rw (one_more extra, e, line_loop) refl;
      }
      go (fault_in self') e = record {
        ends = _;
        leaves = by_fault e;
        result = λ extra rounds. rw (one_more extra, e, line_loop) refl;
      }
      go (next_line self' n) e =
          let later = rest self' n e in
          record {
            ends = later.ends;
            leaves = by_line e later.leaves;
            result = λ extra rounds. rw (one_more extra, e, line_loop) (later.result extra rounds);
          }

  goes_on :
      (self : ModemClient) (tag line_start : ℕ) {self' : ModemClient} {n : ℕ}
      → next_of string_at sys_write cmd cmd_length ip netmask self tag line_start
        ≡ next_line self' n
      → self'.received_size ≡ self.received_size
  unfolding Keeps
  goes_on self tag line_start e =
      subst (Keeps self.received_size) e
        (next_of-Keeps string_at sys_write cmd cmd_length ip netmask self tag line_start)

  -- The loop of modemClient_onFd over the lines ends: its passes leave it, at the label `out`, at
  -- `out_fail` or where the program crashes, after at most one pass for each received byte from
  -- `line_start` on, and another; and with so many passes or more the loop gives what follows there.
  pub line_loop-Ends :
      (fuel tag : ℕ) (self : ModemClient) (line_start : ℕ)
      → self.received_size ≤ line_start + fuel
      → Ends (suc fuel) tag self line_start
  line_loop-Ends zero tag self line_start h =
      one_pass-Ends zero tag self line_start
        (λ self' n e. absurd e (next_of-out self tag line_start (omega arith)))
    where
      absurd :
          {r : Next} {self' : ModemClient} {n : ℕ}
          → r ≡ next_line self' n
          → r ≡ out
          → Ends zero tag self' (line_start + (n + 1))
      absurd p q = cc (p, q)
  line_loop-Ends (suc fuel) tag self line_start h =
      one_pass-Ends (suc fuel) tag self line_start (λ self' n e.
        line_loop-Ends fuel tag self' (line_start + (n + 1))
          (omega (arith, goes_on self tag line_start e)))
