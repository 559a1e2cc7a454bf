-- ===== src/Telnet/Input.antt =====
-- router/router/telnetServer.c: `telnetServer_onClientFd`, what the client sends to the terminal.
mod Reference
mod Chunks
mod Split
mod Tests
use hc.Base.{
  ℕ, zero, suc, ◌+◌, ◌==◌, if◌then◌else◌, Bool, ◌||◌, List, [], ◌∷◌, ◌++◌, Option, none, some,
  length, replicate, take, ◌-◌,
}
use hc.Telnet.Code
use hc.Telnet.{
  Server, saved_size, Call, written, Progress, failed, finished, text, behind, and_then, kick,
  settle, call, call_text,
}
use hc.Telnet.Command.{Reading, save, refuse, read, command}
use hc.Telnet.Saved.{put_saved, take_saved, clear_saved}

-- CR and IAC.
unfoldable pub starts_command : ℕ → Bool
starts_command c = c == 13 || c == Code.iac

-- How the loop ends: the client is kicked, or the bytes of an unfinished command are left.
pub data Ending : Type 0 where
  kicked : List Call → Ending
  done_writing : List Call → List ℕ → Ending

unfoldable pub and_read : Progress → (List Call → Ending) → Ending
and_read (failed t) k = kicked t
and_read (finished t) k = k t

module _ (succeeds : List Call → Bool) where
  -- The call that a command asks for.
  unfoldable pub call_for : Option Call → List Call → Progress
  unfolding call
  call_for none trace = finished trace
  call_for (some c) trace = call succeeds c trace

  -- Behind the text: the end of the bytes, or a CR or IAC; `next` is the loop's next round.
  unfoldable pub obey : (List ℕ → List Call → Ending) → List ℕ → List Call → Ending
  unfolding and_read call_for
  obey next [] trace = done_writing trace []
  obey next (c ∷ rest) trace = elim (command c rest) [
    | save ↦ done_writing trace (c ∷ rest)
    | refuse ↦ kicked trace
    | read asked rest' ↦ and_read (call_for asked trace) (next rest')
  ]

  -- The loop, with rounds left: each but the last takes two bytes.
  unfoldable pub read_loop : ℕ → List ℕ → List Call → Ending
  unfolding and_read obey
  read_loop zero bytes trace = done_writing trace []
  read_loop (suc fuel) bytes trace =
      and_read (call_text succeeds written (text starts_command bytes) trace)
        (λ t. obey (read_loop fuel) (behind starts_command bytes) t)

  unfoldable pub end_reading : Server → Ending → Server × List Call
  unfolding kick
  end_reading s (kicked t) = kick s t
  end_reading s (done_writing t pending) = (record s { saved = put_saved s.saved pending }, t)

  -- `telnetServer_onClientFd` for the bytes that `sys_recvfrom` stores behind the saved ones; an
  -- error or the end of the connection is the empty list.
  unfoldable pub on_client_fd : Server → List ℕ → List Call → Server × List Call
  unfolding kick end_reading
  on_client_fd s [] trace = kick (record s { saved = clear_saved s.saved }) trace
  on_client_fd s (c ∷ received) trace =
      let bytes = take_saved s.saved ++ (c ∷ received) in
      end_reading (record s { saved = clear_saved s.saved })
        (read_loop (suc (length bytes)) bytes trace)
