-- ===== src/Telnet/Input/Chunks.antt =====
-- The loop does what is heard: its calls give the events, and it leaves the same end.
use hc.Base.{
  ℕ, zero, suc, ◌≤◌, ◌<◌, ◌≡◌, ◌≢◌, refl, ap, sym, subst, ◌∙◌, arith, Bool, true, inl, inr, List,
  [], ◌∷◌, ◌++◌, Option, none, some, length, map, append_assoc, append-nil, Bool-cases,
  Option-cases,
}
use hc.Telnet.{Server, Call, written, finished, text, behind, call, call_text, kick}
use hc.Telnet.Command.Prefix.{saves, refuses, reads, command-IsReader}
use hc.Telnet.Saved.{put_saved, take_saved, clear_saved}
use hc.Telnet.Input.{
  starts_command, Ending, kicked, done_writing, and_read, call_for, obey, read_loop, end_reading,
  on_client_fd,
}
use hc.Telnet.Input.Reference.{
  Event, key, events_of_command, events, Hears, silence, typed, unfinished, refused, obeyed, Said,
}

-- What an ending has done.
abbrev outcome : Ending → Said
outcome (kicked t) = (events t, none)
outcome (done_writing t pending) = (events t, some pending)

kick-none :
    (s : Server) (t : List Call)
    → ((kick s t).0 ≡ record s { client_fd = none }) × (events (kick s t).1 ≡ events t)
unfolding kick
kick-none s t = elim (Option-cases s.client_fd) [
  | inl e ↦ rw (e, kick) (ap (λ x. record s { client_fd = x }) e, refl)
  | inr (fd, e) ↦ rw (e, kick) (refl, append-nil (events t))
]

Hears-text :
    (bytes : List ℕ) {es : List Event} {end : Option (List ℕ)}
    → Hears (behind starts_command bytes) es end
    → Hears bytes (map key (text starts_command bytes) ++ es) end
unfolding behind text
Hears-text [] h = h
Hears-text (c ∷ cs) h = elim (Bool-cases (starts_command c)) [
  | inl s ↦ rw (s, behind, text) (rw (s, behind) at h)
  | inr s ↦ rw (s, text) (typed s (Hears-text cs (rw (s, behind) at h)))
]

length-behind : (bytes : List ℕ) → length (behind starts_command bytes) ≤ length bytes
unfolding behind
length-behind [] = omega arith
length-behind (c ∷ cs) = ground (arith, length-behind cs)

behind-head :
    (bytes : List ℕ) {c : ℕ} {cs : List ℕ}
    → behind starts_command bytes ≡ c ∷ cs
    → starts_command c ≡ true
unfolding behind
behind-head [] h = cc
behind-head (b ∷ bs) h = elim (Bool-cases (starts_command b)) [
  | inl s ↦
      let q : b ∷ bs ≡ _ ∷ _ = (rw (s, behind) at h) in
      subst (λ t. starts_command t ≡ true) (cc q) s
  | inr s ↦ behind-head bs (rw (s, behind) at h)
]

module _ (succeeds : List Call → Bool) (always : (t : List Call) → succeeds t ≡ true) where
  call_text-finished :
      (bytes : List ℕ) (trace : List Call)
      → (t : List Call) × (call_text succeeds written bytes trace ≡ finished t)
        × (events t ≡ events trace ++ map key bytes)
  unfolding call_text call
  call_text-finished [] trace = (trace, refl, sym (append-nil (events trace)))
  call_text-finished (c ∷ cs) trace =
      (written (c ∷ cs) ∷ trace, rw (always (written (c ∷ cs) ∷ trace)) refl, refl)

  call_for-finished :
      (asked : Option Call) (trace : List Call)
      → (t : List Call) × (call_for succeeds asked trace ≡ finished t)
        × (events t ≡ events trace ++ events_of_command asked)
  unfolding call_for call
  call_for-finished none trace = (trace, refl, sym (append-nil (events trace)))
  call_for-finished (some c) trace = (c ∷ trace, rw (always (c ∷ trace)) refl, refl)

  -- What the loop has done for these bytes.
  Heard : List ℕ → List Call → Ending → Type 0
  Heard bytes trace e =
      (es : List Event) × (end : Option (List ℕ)) × Hears bytes es end
      × (◌≡◌ {A = Said} (outcome e) (events trace ++ es, end))

  -- Bytes and events in front of what has been heard.
  Heard-before :
      (bytes rest : List ℕ) (front : List Event) (trace t : List Call) (e : Ending)
      → ((es : List Event) (end : Option (List ℕ))
          → Hears rest es end
          → Hears bytes (front ++ es) end)
      → events t ≡ events trace ++ front
      → Heard rest t e
      → Heard bytes trace e
  unfolding Heard
  Heard-before bytes rest front trace t e hears ev (es, end, h, o) = (
    front ++ es,
    end,
    hears es end h,
    o ∙ ap (λ x. (x, end)) (ap (λ x. x ++ es) ev ∙ append_assoc (events trace) front es),
  )

  obey-Heard :
      (next : List ℕ → List Call → Ending) (n : ℕ)
      → ((rest : List ℕ) (t : List Call) → length rest < n → Heard rest t (next rest t))
      → (bytes : List ℕ) (trace : List Call) → length bytes ≤ n
      → ((c : ℕ) (cs : List ℕ) → bytes ≡ c ∷ cs → starts_command c ≡ true)
      → Heard bytes trace (obey succeeds next bytes trace)
  unfolding obey Heard
  obey-Heard next n ih [] trace h starts =
      ([], some [], silence, ap (λ x. (x, some [])) (sym (append-nil (events trace))))
  obey-Heard next n ih (c ∷ cs) trace h starts = elim (command-IsReader c cs) [
    | saves e l ↦
        rw (e, obey)
          (
            [],
            some (c ∷ cs),
            unfinished (starts c cs refl) e,
            ap (λ x. (x, some (c ∷ cs))) (sym (append-nil (events trace))),
          )
    | refuses e g ↦
        rw (e, obey)
          (
            [],
            none,
            refused (starts c cs refl) e,
            ap (λ x. (x, none)) (sym (append-nil (events trace))),
          )
    | reads asked rest e l k g ↦
        let (t, f, ev) = call_for-finished asked trace in
        rw (e, obey, f, and_read)
          (Heard-before (c ∷ cs) rest (events_of_command asked) trace t (next rest t)
            (λ es end m. obeyed asked (starts c cs refl) e m refl) ev (ih rest t (omega arith)))
  ]

  read_loop-Heard :
      (fuel : ℕ) (bytes : List ℕ) (trace : List Call)
      → length bytes < fuel
      → Heard bytes trace (read_loop succeeds fuel bytes trace)
  unfolding read_loop and_read
  read_loop-Heard zero bytes trace h = absurd (omega arith)
  read_loop-Heard (suc fuel) bytes trace h =
      let (t, e, ev) = call_text-finished (text starts_command bytes) trace in
      rw (e, and_read)
        (Heard-before bytes (behind starts_command bytes) (map key (text starts_command bytes))
          trace t _ (λ es end m. Hears-text bytes m) ev
          (obey-Heard (read_loop succeeds fuel) fuel (read_loop-Heard fuel)
            (behind starts_command bytes) t (omega (arith, length-behind bytes))
            (λ c cs q. behind-head bytes q)))

  -- The server that an ending leaves.
  abbrev pub left_by : Server → Option (List ℕ) → Server
  left_by s none = record s { client_fd = none; saved = clear_saved s.saved }
  left_by s (some pending) = record s { saved = put_saved (clear_saved s.saved) pending }

  end_reading-left_by :
      (s : Server) (e : Ending) {es : List Event} {end : Option (List ℕ)}
      → ◌≡◌ {A = Said} (outcome e) (es, end)
      → ((end_reading succeeds (record s { saved = clear_saved s.saved }) e).0 ≡ left_by s end)
        × (events (end_reading succeeds (record s { saved = clear_saved s.saved }) e).1 ≡ es)
  unfolding end_reading
  end_reading-left_by s (done_writing t pending) {es} {end} o =
      let p : some pending ≡ end = ap (λ x. x.1) o in (ap (left_by s) p, ap (λ x. x.0) o)
  end_reading-left_by s (kicked t) {es} {end} o =
      let p : none ≡ end = ap (λ x. x.1) o in
      let (k, ev) = kick-none (record s { saved = clear_saved s.saved }) t in
      (k ∙ ap (left_by s) p, ev ∙ ap (λ x. x.0) o)

  pub on_client_fd-Hears :
      (s : Server) (received : List ℕ) (trace : List Call)
      → received ≢ []
      → (es : List Event) × (end : Option (List ℕ)) × Hears (take_saved s.saved ++ received) es end
        × ((on_client_fd succeeds s received trace).0 ≡ left_by s end)
        × (events (on_client_fd succeeds s received trace).1 ≡ events trace ++ es)
  unfolding on_client_fd Heard
  on_client_fd-Hears s [] trace ne = absurd (ne refl)
  on_client_fd-Hears s (c ∷ cs) trace ne =
      let bytes = take_saved s.saved ++ (c ∷ cs) in
      let (es, end, h, o) = read_loop-Heard (suc (length bytes)) bytes trace (omega arith) in
      let said = end_reading-left_by s (read_loop succeeds (suc (length bytes)) bytes trace) o in
      (es, end, h, said.0, said.1)
