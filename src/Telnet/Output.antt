-- ===== src/Telnet/Output.antt =====
-- router/router/telnetServer.c: `telnetServer_onListenFd` and `telnetServer_onPtMasterFd`, what the
-- server sends to its client.
mod Escape
mod Tests
use hc.Base.{
  ℕ, zero, suc, ◌+◌, ◌==◌, if◌then◌else◌, Bool, ◌||◌, List, [], ◌∷◌, ◌++◌, Option, none, some,
  length, replicate,
}
use hc.Telnet.Code
use hc.Telnet.{
  Server, saved_size, Call, sent, closed, watched, Progress, failed, finished, text, behind,
  and_then, kick, settle, call, call_text,
}

abbrev pub handshake : List ℕ
handshake =
    Code.iac ∷ Code.will ∷ Code.opt_echo ∷ Code.iac ∷ Code.will ∷ Code.opt_sga ∷ Code.iac
    ∷ Code.do_it ∷ Code.opt_naws ∷ []

-- CR, NL and IAC.
unfoldable pub is_special : ℕ → Bool
is_special c = c == 13 || c == 10 || c == Code.iac

-- The two bytes sent for one of these.
unfoldable pub escape : ℕ → List ℕ
escape c =
    if c == 13 then 13 ∷ 0 ∷ [] else if c == 10 then 13 ∷ 10 ∷ [] else Code.iac ∷ Code.iac ∷ []

module _ (succeeds : List Call → Bool) where
  -- `telnetServer_onListenFd` for what `sys_accept4` returns: a descriptor, or an error.
  unfoldable pub on_listen_fd : Server → Option ℕ → List Call → Server × List Call
  unfolding kick call
  on_listen_fd s none trace = (s, trace)
  on_listen_fd s (some new_client_fd) trace =
      let kicked = kick s trace in
      elim (call succeeds (sent new_client_fd handshake) kicked.1) [
        | failed t ↦ kick kicked.0 t
        | finished t ↦ (
          record { client_fd = some new_client_fd; saved = replicate saved_size 0 },
          watched new_client_fd ∷ t,
        )
      ]

  -- Behind the text: the end of the bytes, or one of CR, NL and IAC; `next` is the next round.
  unfoldable pub send_special : (List ℕ → List Call → Progress) → ℕ → List ℕ → List Call → Progress
  unfolding call and_then escape
  send_special next fd [] trace = finished trace
  send_special next fd (c ∷ rest) trace =
      and_then (call succeeds (sent fd (escape c)) trace) (next rest)

  -- The loop of `telnetServer_onPtMasterFd`, with rounds left: each but the last takes a byte.
  unfoldable pub send_loop : ℕ → ℕ → List ℕ → List Call → Progress
  unfolding and_then send_special
  send_loop zero fd bytes trace = finished trace
  send_loop (suc fuel) fd bytes trace =
      and_then (call_text succeeds (sent fd) (text is_special bytes) trace)
        (λ t. send_special (send_loop fuel fd) fd (behind is_special bytes) t)

  -- `telnetServer_onPtMasterFd` for the bytes that it reads from the terminal.
  unfoldable pub on_pt_master_fd : Server → List ℕ → List Call → Server × List Call
  unfolding send_loop settle
  on_pt_master_fd s bytes trace = elim (s.client_fd) [
    | none ↦ (s, trace)
    | some fd ↦ settle s (send_loop (suc (length bytes)) fd bytes trace)
  ]
