-- ===== src/Telnet/Output/Escape.antt =====
-- What the client gets of the terminal's output: a telnet peer reads it back as it was.
use hc.Base.{
  ℕ, zero, suc, ◌≤◌, ◌<◌, ◌==◌, ◌≡◌, refl, ap, sym, ◌∙◌, arith, if◌then◌else◌, Bool, true, List, [],
  ◌∷◌, ◌++◌, Option, none, some, length, append_assoc, append-nil, Bool-cases, inl, inr,
}
use hc.Telnet.Code
use hc.Telnet.{
  Server, Call, sent, closed, watched, written, resized, Progress, finished, text, behind, and_then,
  call, call_text, settle,
}
use hc.Telnet.Output.{is_special, escape, send_special, send_loop, on_pt_master_fd}

-- A peer that reads the bytes of a network terminal, as in RFC 854: CR is followed by NUL or LF and
-- IAC by IAC; the pairs stand for CR, the end of a line, and the byte 255.
pub data Mode : Type 0 where
  plain after_cr after_iac : Mode

pub peer_step : Mode → ℕ → Option (List ℕ × Mode)
peer_step plain c =
    if c == 13
    then some ([], after_cr)
    else if c == Code.iac
    then some ([], after_iac)
    else if c == 10
    then none
    else some (c ∷ [], plain)
peer_step after_cr c =
    if c == 0 then some (13 ∷ [], plain) else if c == 10 then some (10 ∷ [], plain) else none
peer_step after_iac c = if c == Code.iac then some (Code.iac ∷ [], plain) else none

pub peer_reads : Mode → List ℕ → Option (List ℕ)
unfolding peer_step
peer_reads plain [] = some []
peer_reads after_cr [] = none
peer_reads after_iac [] = none
peer_reads mode (c ∷ cs) = elim (peer_step mode c) [
  | none ↦ none
  | some (out, next) ↦ elim (peer_reads next cs) [ none ↦ none | some rest ↦ some (out ++ rest) ]
]

-- The bytes that were sent, the oldest first.
abbrev pub sent_bytes : List Call → List ℕ
sent_bytes [] = []
sent_bytes (sent fd bytes ∷ trace) = sent_bytes trace ++ bytes
sent_bytes (closed fd ∷ trace) = sent_bytes trace
sent_bytes (watched fd ∷ trace) = sent_bytes trace
sent_bytes (written bytes ∷ trace) = sent_bytes trace
sent_bytes (resized col row ∷ trace) = sent_bytes trace

abbrev encode : List ℕ → List ℕ
unfolding is_special escape
encode [] = []
encode (c ∷ cs) = (if is_special c then escape c else c ∷ []) ++ encode cs

peer_reads-encode : (bytes : List ℕ) → peer_reads plain (encode bytes) ≡ some bytes
unfolding peer_reads peer_step encode is_special escape
peer_reads-encode [] = refl
peer_reads-encode (c ∷ cs) = ground (arith, peer_reads-encode cs)

encode-text :
    (bytes : List ℕ) → text is_special bytes ++ encode (behind is_special bytes) ≡ encode bytes
unfolding text behind encode
encode-text [] = refl
encode-text (c ∷ cs) = ground (arith, encode-text cs)

length-behind : (bytes : List ℕ) → length (behind is_special bytes) ≤ length bytes
unfolding behind
length-behind [] = omega arith
length-behind (c ∷ cs) = ground (arith, length-behind cs)

behind-head :
    (bytes : List ℕ) (c : ℕ) (cs : List ℕ) → behind is_special bytes ≡ c ∷ cs → is_special c ≡ true
unfolding behind
behind-head [] c cs h = cc
behind-head (b ∷ bs) c cs h = elim (Bool-cases (is_special b)) [
  | inl s ↦
      let q : b ∷ bs ≡ c ∷ cs = rw (s, behind) at h in
      let p : b ≡ c = cc q in sym (ap is_special p) ∙ s
  | inr s ↦ behind-head bs c cs (rw (s, behind) at h)
]

module _ (succeeds : List Call → Bool) (always : (t : List Call) → succeeds t ≡ true) where
  call_text-sends :
      (fd : ℕ) (bytes : List ℕ) (trace : List Call)
      → (t : List Call) × (call_text succeeds (sent fd) bytes trace ≡ finished t)
        × (sent_bytes t ≡ sent_bytes trace ++ bytes)
  unfolding call_text call
  call_text-sends fd [] trace = (trace, refl, sym (append-nil (sent_bytes trace)))
  call_text-sends fd (c ∷ cs) trace =
      (sent fd (c ∷ cs) ∷ trace, rw (always (sent fd (c ∷ cs) ∷ trace)) refl, refl)

  -- What sending these bytes comes to.
  Sends : List ℕ → List Call → Progress → Type 0
  Sends bytes trace p =
      (t : List Call) × (p ≡ finished t) × (sent_bytes t ≡ sent_bytes trace ++ encode bytes)

  send_special-Sends :
      (next : List ℕ → List Call → Progress) (n fd : ℕ)
      → ((rest : List ℕ) (t : List Call) → length rest < n → Sends rest t (next rest t))
      → (bytes : List ℕ) (trace : List Call) → length bytes ≤ n
      → ((c : ℕ) (cs : List ℕ) → bytes ≡ c ∷ cs → is_special c ≡ true)
      → Sends bytes trace (send_special succeeds next fd bytes trace)
  unfolding Sends send_special call and_then encode
  send_special-Sends next n fd ih [] trace h special =
      (trace, refl, sym (append-nil (sent_bytes trace)))
  send_special-Sends next n fd ih (c ∷ cs) trace h special =
      let (t, e, ev) = ih cs (sent fd (escape c) ∷ trace) (omega arith) in
      (
        t,
        rw (always (sent fd (escape c) ∷ trace), and_then) e,
        rw (special c cs refl) (ev ∙ append_assoc (sent_bytes trace) (escape c) (encode cs)),
      )

  send_loop-Sends :
      (fuel fd : ℕ) (bytes : List ℕ) (trace : List Call)
      → length bytes < fuel
      → Sends bytes trace (send_loop succeeds fuel fd bytes trace)
  unfolding Sends send_loop and_then
  send_loop-Sends zero fd bytes trace h = absurd (omega arith)
  send_loop-Sends (suc fuel) fd bytes trace h =
      let (t, e, ev) = call_text-sends fd (text is_special bytes) trace in
      let (u, f, ev') =
        send_special-Sends (send_loop succeeds fuel fd) fuel fd (send_loop-Sends fuel fd)
          (behind is_special bytes) t (omega (arith, length-behind bytes)) (behind-head bytes) in
      (
        u,
        rw (e, and_then) f,
        ev'
            ∙ ap (λ x. x ++ encode (behind is_special bytes)) ev
            ∙ append_assoc (sent_bytes trace) (text is_special bytes)
                (encode (behind is_special bytes))
            ∙ ap (λ x. sent_bytes trace ++ x) (encode-text bytes),
      )

  -- If all calls succeed, the bytes that the terminal gives are sent to the connected client in a form
  -- that a telnet peer reads back as these bytes, whatever they are, and the server stays as it was.
  pub on_pt_master_fd_lem :
      (s : Server) (fd : ℕ) (bytes : List ℕ) (trace : List Call)
      → s.client_fd ≡ some fd
      → (encoded : List ℕ) × (peer_reads plain encoded ≡ some bytes)
        × ((on_pt_master_fd succeeds s bytes trace).0 ≡ s)
        × (sent_bytes (on_pt_master_fd succeeds s bytes trace).1 ≡ sent_bytes trace ++ encoded)
  unfolding on_pt_master_fd settle Sends
  on_pt_master_fd_lem s fd bytes trace connected =
      let (t, e, ev) = send_loop-Sends (suc (length bytes)) fd bytes trace (omega arith) in
      (
        encode bytes,
        peer_reads-encode bytes,
        rw (connected, on_pt_master_fd, e, settle) (ap (λ x. record s { client_fd = x }) connected),
        rw (connected, on_pt_master_fd, e, settle) ev,
      )
