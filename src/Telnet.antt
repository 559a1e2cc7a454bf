-- ===== src/Telnet.antt =====
-- hc/core/hc/telnet.h and router/router/telnetServer.c: the server between a telnet client and the terminal of
-- the shell. What the handlers do outside the program is a trace of calls, the newest first; whether
-- a call succeeds is a parameter, a function of the trace with the call on top. A pointer into the
-- received bytes is the list of the bytes from there on. Not modelled: the processes, sockets and
-- terminal that `telnetServer_init` makes, and the closing at the end.
mod Code
mod Command
mod Saved
mod Output
mod Input
use hc.Base.{
  ℕ, zero, suc, ◌+◌, ◌-◌, ◌*◌, ◌^◌, ◌==◌, if◌then◌else◌, Bool, not, ◌&&◌, ◌||◌, List, [], ◌∷◌,
  Option, none, some, replicate,
}

-- `struct telnetServer`, without the descriptors that never change; a null `client_fd` is -1.
pub record Server : Type 0 where
  pub client_fd : Option ℕ
  pub saved : List ℕ

-- `hc_ARRAY_LEN(telnetServer.saved)`
abbrev pub saved_size : ℕ
saved_size = 12

pub data Call : Type 0 where
  -- `sys_sendto`, `sys_close` and `epollAdd` on a client's descriptor
  sent : ℕ → List ℕ → Call
  closed : ℕ → Call
  watched : ℕ → Call
  -- `sys_write` and `sys_ioctl(TIOCSWINSZ)` on the terminal
  written : List ℕ → Call
  resized : ℕ → ℕ → Call

-- Where a sequence of calls stands: one of them failed, or all are done.
pub data Progress : Type 0 where
  failed : List Call → Progress
  finished : List Call → Progress

-- The bytes before the first one that a loop stops at, and those from there on.
pub text : (ℕ → Bool) → List ℕ → List ℕ
text stops [] = []
text stops (c ∷ cs) = if stops c then [] else c ∷ text stops cs

pub behind : (ℕ → Bool) → List ℕ → List ℕ
behind stops [] = []
behind stops (c ∷ cs) = if stops c then c ∷ cs else behind stops cs

pub and_then : Progress → (List Call → Progress) → Progress
and_then (failed t) k = failed t
and_then (finished t) k = k t

-- `_telnetServer_kickClient`
unfoldable pub kick : Server → List Call → Server × List Call
kick s trace = elim (s.client_fd) [
  | none ↦ (s, trace)
  | some fd ↦ (record s { client_fd = none }, closed fd ∷ trace)
]

-- The end of a handler: the client is kicked if a call failed.
unfoldable pub settle : Server → Progress → Server × List Call
settle s (failed t) = kick s t
settle s (finished t) = (s, t)

module _ (succeeds : List Call → Bool) where
  unfoldable pub call : Call → List Call → Progress
  call c trace = if succeeds (c ∷ trace) then finished (c ∷ trace) else failed (c ∷ trace)

  -- Nothing is called for an empty text.
  unfoldable pub call_text : (List ℕ → Call) → List ℕ → List Call → Progress
  unfolding call
  call_text make [] trace = finished trace
  call_text make (c ∷ cs) trace = call (make (c ∷ cs)) trace
