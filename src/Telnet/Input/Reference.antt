-- ===== src/Telnet/Input/Reference.antt =====
-- A description of what the server hears from its client, byte by byte, without the buffer, the
-- rounds and the joining of bytes into one write.
use hc.Base.{
  ℕ, ◌≤◌, ◌≡◌, refl, ap, ap₂, sym, subst, ◌∙◌, arith, true, false, List, [], ◌∷◌, ◌++◌, Option,
  none, some, length, map, append_assoc,
}
use hc.Telnet.{Call, sent, closed, watched, written, resized, saved_size}
use hc.Telnet.Command.{save, refuse, read, command}
use hc.Telnet.Command.Prefix.{saves, refuses, reads, command-IsReader}
use hc.Telnet.Saved.{IsPending}
use hc.Telnet.Input.{starts_command}

-- What reaches the terminal: a byte, or the size of the window.
pub data Event : Type 0 where
  key : ℕ → Event
  size : ℕ → ℕ → Event

abbrev pub events_of : Call → List Event
events_of (written bytes) = map key bytes
events_of (resized col row) = size col row ∷ []
events_of (sent fd bytes) = []
events_of (closed fd) = []
events_of (watched fd) = []

abbrev pub events_of_command : Option Call → List Event
events_of_command none = []
events_of_command (some c) = events_of c

-- The events of a trace, the oldest first.
abbrev pub events : List Call → List Event
events [] = []
events (c ∷ trace) = events trace ++ events_of c

-- `Hears bytes es end`: the bytes give these events; then the client is kicked (`none`), or these
-- bytes of an unfinished command are left.
pub data Hears : List ℕ → List Event → Option (List ℕ) → Type 0 where
  silence : Hears [] [] (some [])
  typed :
      {c : ℕ} {cs : List ℕ} {es : List Event} {end : Option (List ℕ)}
      → starts_command c ≡ false
      → Hears cs es end
      → Hears (c ∷ cs) (key c ∷ es) end
  unfinished :
      {c : ℕ} {cs : List ℕ}
      → starts_command c ≡ true
      → command c cs ≡ save
      → Hears (c ∷ cs) [] (some (c ∷ cs))
  refused :
      {c : ℕ} {cs : List ℕ}
      → starts_command c ≡ true
      → command c cs ≡ refuse
      → Hears (c ∷ cs) [] none
  obeyed :
      {c : ℕ} {cs rest : List ℕ} {es all : List Event} {end : Option (List ℕ)} (asked : Option Call)
      → starts_command c ≡ true
      → command c cs ≡ read asked rest
      → Hears rest es end
      → all ≡ events_of_command asked ++ es
      → Hears (c ∷ cs) all end

abbrev pub Said : Type 0
Said = List Event × Option (List ℕ)

said_after : List Event → Said → Said
said_after es s = (es ++ s.0, s.1)

-- The bytes determine what is heard.
pub Hears-unique :
    {bytes : List ℕ} {es es' : List Event} {end end' : Option (List ℕ)}
    → Hears bytes es end
    → Hears bytes es' end'
    → ◌≡◌ {A = Said} (es, end) (es', end')
Hears-unique silence silence = refl
Hears-unique (typed n h) (typed m k) = cc (Hears-unique h k)
Hears-unique (typed n h) (unfinished s r) = cc
Hears-unique (typed n h) (refused s r) = cc
Hears-unique (typed n h) (obeyed asked s r k e) = cc
Hears-unique (unfinished s r) (typed n h) = cc
Hears-unique (unfinished s r) (unfinished s' r') = refl
Hears-unique (unfinished s r) (refused s' r') = cc
Hears-unique (unfinished s r) (obeyed asked s' r' k e) = cc
Hears-unique (refused s r) (typed n h) = cc
Hears-unique (refused s r) (unfinished s' r') = cc
Hears-unique (refused s r) (refused s' r') = refl
Hears-unique (refused s r) (obeyed asked s' r' k e) = cc
Hears-unique (obeyed asked s r k e) (typed n h) = cc
Hears-unique (obeyed asked s r k e) (unfinished s' r') = cc
Hears-unique (obeyed asked s r k e) (refused s' r') = cc
Hears-unique {es = all} {es' = all'} {end} {end'} (obeyed {rest} {es} asked s r k e)
      (obeyed {rest = rest'} {es = es'} asked' s' r' k' e') =
    let q : read asked rest ≡ read asked' rest' = sym r ∙ r' in
    let p : rest ≡ rest' = cc q in
    let a : asked ≡ asked' = cc q in
    let h : ◌≡◌ {A = Said} (es, end) (es', end') =
      Hears-unique (subst (λ t. Hears t es end) p k) k' in
    let f : all ≡ all' = e ∙ cc (a, ap (λ t. t.0) h) ∙ sym e' in
    ap₂ (λ x y. (x, y)) f (ap (λ t. t.1) h)

-- What is left of a command fits into the array, and does not begin with zero.
pub Hears-IsPending :
    {bytes : List ℕ} {es : List Event} {pending : List ℕ}
    → Hears bytes es (some pending)
    → (length pending ≤ saved_size) × IsPending pending
unfolding starts_command
Hears-IsPending silence = (omega arith, tt)
Hears-IsPending (typed n h) = Hears-IsPending h
Hears-IsPending (unfinished {c} {cs} s r) = elim (command-IsReader c cs) [
  | saves e l ↦ (omega arith, ground arith)
  | refuses e g ↦ cc
  | reads a rest e l k g ↦ cc
]
Hears-IsPending (obeyed asked s r k e) = Hears-IsPending k

reads_on :
    (c : ℕ) (cs : List ℕ) {rest : List ℕ} {asked : Option Call}
    → command c cs ≡ read asked rest
    → (b : List ℕ) → command c (cs ++ b) ≡ read asked (rest ++ b)
reads_on c cs {rest} {asked} r b = elim (command-IsReader c cs) [
  | saves e l ↦ cc
  | refuses e g ↦ cc
  | reads a rest' e l k g ↦ let q : read asked rest ≡ read a rest' = sym r ∙ e in g b ∙ cc q
]

-- More bytes behind those that have been heard.
abbrev pub Continued : List ℕ → List ℕ → List Event → Option (List ℕ) → Type 0
Continued a b es none = Hears (a ++ b) es none
Continued a b es (some pending) =
    (fs : List Event) (end : Option (List ℕ))
    → Hears (pending ++ b) fs end
    → Hears (a ++ b) (es ++ fs) end

pub Hears-append :
    {a : List ℕ} {es : List Event} {end : Option (List ℕ)} (b : List ℕ)
    → Hears a es end
    → Continued a b es end
Hears-append b silence = λ fs end k. k
Hears-append {a} {es} {end = none} b (typed n h) = typed n (Hears-append b h)
Hears-append {a} {es} {end = some p} b (typed n h) =
    λ fs last k. typed n (Hears-append b h fs last k)
Hears-append b (unfinished s r) = λ fs end k. k
Hears-append b (refused {c} {cs} s r) = elim (command-IsReader c cs) [
  | saves e l ↦ cc
  | refuses e g ↦ refused s (g b)
  | reads x rest e l k g ↦ cc
]
Hears-append {a} {es} {end = none} b (obeyed {c} {cs} {rest} asked s r k e) =
    obeyed asked s (reads_on c cs r b) (Hears-append b k) e
Hears-append {a} {es} {end = some p} b (obeyed {c} {cs} {rest} {es = fs} asked s r k e) =
    λ gs last m.
      obeyed asked s (reads_on c cs r b) (Hears-append b k gs last m)
        (ap (λ t. t ++ gs) e ∙ append_assoc (events_of_command asked) fs gs)
