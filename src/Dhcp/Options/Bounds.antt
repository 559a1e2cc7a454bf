-- ===== src/Dhcp/Options/Bounds.antt =====
-- What the walks find lies inside the received message and is what it is taken for; they end; and
-- the server's walk finds the client's message type.
use hc.Base.{
  ℕ, zero, suc, ◌+◌, ◌≤◌, ◌<◌, ◌≡◌, refl, arith, List, Option, none, some, byte_at, AllBytes,
  byte_at-lt, Bool-cases, true, false, inl, inr, ltb, ◌==◌, if◌then◌else◌,
}
use hc.Dhcp.Code
use hc.Dhcp.Options.{
  Found, nothing_found, next_option, note_option, find_options, find_message_type,
}

-- The option at `o` has this code and a length in this range, and ends inside the message.
pub record IsOption (buffer : List ℕ) (limit code shortest longest o : ℕ) : Type 0 where
  pub code_is : byte_at buffer o ≡ code
  pub long_enough : shortest ≤ byte_at buffer (o + 1)
  pub short_enough : byte_at buffer (o + 1) ≤ longest
  pub inside : o + 2 + byte_at buffer (o + 1) ≤ limit

-- A pointer is null, or points to such an option.
abbrev pub Holds : List ℕ → ℕ → ℕ → ℕ → ℕ → Option ℕ → Type 0
Holds buffer limit code shortest longest none = Unit {0}
Holds buffer limit code shortest longest (some o) = IsOption buffer limit code shortest longest o

-- How the loop at an option, with these pointers, comes to an end with the last ones, without a
-- bound on its rounds: it stops where the next option ends behind the received bytes, and
-- otherwise goes on behind its code, its length and as many bytes as the length says.
pub data Walk (buffer : List ℕ) (limit : ℕ) : ℕ → Found → Found → Type 0 where
  stop :
      {current : ℕ} {f : Found}
      → limit < current + 2 + byte_at buffer (current + 1)
      → Walk buffer limit current f f
  step :
      {current : ℕ} {f g : Found}
      → current + 2 + byte_at buffer (current + 1) ≤ limit
      → Walk buffer limit
          (current + 2 + byte_at buffer (current + 1))
          (note_option current (byte_at buffer current) (byte_at buffer (current + 1)) f)
          g
      → Walk buffer limit current f g

module _ (buffer : List ℕ) (limit : ℕ) where
  pub record AllHold (f : Found) : Type 0 where
    pub message_type : Holds buffer limit Code.message_type 1 1 f.message_type
    pub subnet_mask : Holds buffer limit Code.subnet_mask 4 4 f.subnet_mask
    pub router : Holds buffer limit Code.router 4 255 f.router
    pub dns : Holds buffer limit Code.dns 4 255 f.dns
    pub lease_time : Holds buffer limit Code.lease_time 4 4 f.lease_time

  note_option-AllHold :
      (current : ℕ) (f : Found)
      → byte_at buffer (current + 1) < 256
      → next_option buffer current ≤ limit
      → AllHold f
      → AllHold (note_option current (byte_at buffer current) (byte_at buffer (current + 1)) f)
  unfolding note_option
  note_option-AllHold current f b h a = ground arith

  find_options-AllHold :
      (fuel current : ℕ) (f : Found)
      → ((i : ℕ) → byte_at buffer i < 256)
      → AllHold f
      → AllHold (find_options fuel buffer limit current f)
  unfolding find_options
  find_options-AllHold zero current f b a = a
  find_options-AllHold (suc fuel) current f b a =
      let len = byte_at buffer (current + 1) in
      elim (Bool-cases (ltb limit (next_option buffer current))) [
        | inl past ↦ rw past a
        | inr within ↦ rw within (
            find_options-AllHold fuel (next_option buffer current)
              (note_option current (byte_at buffer current) len f) b
              (note_option-AllHold current f (b (current + 1)) (ltb-false within) a))
      ]
    where
      ltb-false : {m n : ℕ} → ltb m n ≡ false → n ≤ m
      ltb-false {m} {n} e = ground arith

  -- One round for each byte that is left, and another, bring the loop to its end.
  find_options-Walk :
      (fuel current : ℕ) (f : Found)
      → limit < current + fuel
      → Walk buffer limit current f (find_options fuel buffer limit current f)
  unfolding find_options
  find_options-Walk zero current f h = stop (omega arith)
  find_options-Walk (suc fuel) current f h =
      elim (Bool-cases (ltb limit (next_option buffer current))) [
        | inl past ↦ rw past (stop (past-limit past))
        | inr within ↦ rw within (
            step (ltb-false within) (
              find_options-Walk fuel (next_option buffer current)
                (note_option current (byte_at buffer current) (byte_at buffer (current + 1)) f)
                (omega (arith, ltb-false within))))
      ]
    where
      past-limit : {m n : ℕ} → ltb m n ≡ true → m < n
      past-limit {m} {n} e = ground arith

      ltb-false : {m n : ℕ} → ltb m n ≡ false → n ≤ m
      ltb-false {m} {n} e = ground arith

  -- More rounds than the bytes that are left change nothing.
  find_options-enough :
      (fuel more current : ℕ) (f : Found)
      → limit < current + fuel
      → limit < current + more
      → find_options fuel buffer limit current f ≡ find_options more buffer limit current f
  unfolding find_options
  find_options-enough zero zero current f h k = refl
  find_options-enough zero (suc more) current f h k = ground arith
  find_options-enough (suc fuel) zero current f h k = ground arith
  find_options-enough (suc fuel) (suc more) current f h k = ground (
    arith,
    find_options-enough fuel more (next_option buffer current)
        (note_option current (byte_at buffer current) (byte_at buffer (current + 1)) f),
  )

  note_option-message_type :
      (current code len : ℕ) (f : Found)
      → (note_option current code len f).message_type ≡ (
          if code == Code.message_type
          then if len == 1 then some current else f.message_type
          else f.message_type)
  unfolding note_option
  note_option-message_type current code len f = ground arith

  -- The server's walk is the client's, seen at the message type.
  find_message_type-find_options :
      (fuel current : ℕ) (f : Found)
      → find_message_type fuel buffer limit current f.message_type
        ≡ (find_options fuel buffer limit current f).message_type
  unfolding find_message_type find_options
  find_message_type-find_options zero current f = refl
  find_message_type-find_options (suc fuel) current f =
      let noted = note_option current (byte_at buffer current) (byte_at buffer (current + 1)) f in
      ground (
        arith,
        note_option-message_type current (byte_at buffer current) (byte_at buffer (current + 1)) f,
        find_message_type-find_options fuel (next_option buffer current) noted,
      )

nothing_found-AllHold : (buffer : List ℕ) (limit : ℕ) → AllHold buffer limit nothing_found
nothing_found-AllHold buffer limit = record {
  message_type = tt;
  subnet_mask = tt;
  router = tt;
  dns = tt;
  lease_time = tt;
}

-- Whatever bytes were received, each pointer that the client's walk leaves is null or points to an
-- option that ends inside the message and has the code, and the length that its use needs: one
-- byte for the message type, four for the mask and the lease time, at least four for router and
-- DNS. The walk comes to its end, from option to option, within the rounds given, and more rounds
-- change nothing; and the server's walk finds the same message type.
pub find_options_lem :
    (buffer : List ℕ) (limit start extra : ℕ)
    → AllBytes buffer
    → AllHold buffer limit (find_options (suc limit) buffer limit start nothing_found)
      × Walk buffer limit start nothing_found
          (find_options (suc limit) buffer limit start nothing_found)
      × (find_options (suc limit + extra) buffer limit start nothing_found
          ≡ find_options (suc limit) buffer limit start nothing_found)
      × (find_message_type (suc limit) buffer limit start none
          ≡ (find_options (suc limit) buffer limit start nothing_found).message_type)
find_options_lem buffer limit start extra b = (
  find_options-AllHold buffer limit (suc limit) start nothing_found (λ i. byte_at-lt buffer i b)
      (nothing_found-AllHold buffer limit),
  find_options-Walk buffer limit (suc limit) start nothing_found (omega arith),
  find_options-enough buffer limit (suc limit + extra) (suc limit) start nothing_found (omega arith)
      (omega arith),
  find_message_type-find_options buffer limit (suc limit) start nothing_found,
)
