-- ===== src/Dhcp/Client/Addresses.antt =====
-- The addresses that the client has put on its interface, by what it asked the kernel for.
use hc.Base.{
  ◌&&◌, ap, sym, ◌∙◌, ◌++◌, ℕ, ◌+◌, ◌==◌, ◌≡◌, ◌≢◌, inl, inr, refl, arith, List, [], ◌∷◌, Option,
  none, some, word_at, if◌then◌else◌, true, false, Bool, byte_at, ltb, window, Bool-cases,
  ℕ_discrete,
}
use hc.Dhcp.Kind
use hc.Dhcp.At
use hc.Dhcp.Options.{Found}
use hc.Dhcp.Server.{same_bytes}
use hc.Dhcp.Client.{
  Client, Effect, set_timer, send, broadcast, new_route, print_leased, print_lost, del_addr,
  new_addr, on_timer, on_ack, on_offer, dispatch, handle, on_fd,
}

-- The address that was configured last on the interface and not removed from it since, among these
-- effects behind one of which that was `ip`; 0 if there is none.
abbrev pub standing : ℕ → ℕ → List Effect → ℕ
standing if_index ip [] = ip
standing if_index ip (del_addr i removed ∷ es) =
    standing if_index (if i == if_index && removed == ip then 0 else ip) es
standing if_index ip (new_addr i added _ ∷ es) =
    standing if_index (if i == if_index then added else ip) es
standing if_index ip (_ ∷ es) = standing if_index ip es

module _ (if_index : ℕ) where
  standing-append :
      (ip : ℕ) (es fs : List Effect)
      → standing if_index ip (es ++ fs) ≡ standing if_index (standing if_index ip es) fs
  standing-append ip [] fs = refl
  standing-append ip (set_timer _ ∷ es) fs = standing-append ip es fs
  standing-append ip (send _ _ ∷ es) fs = standing-append ip es fs
  standing-append ip (broadcast _ ∷ es) fs = standing-append ip es fs
  standing-append ip (del_addr i removed ∷ es) fs =
      standing-append (if i == if_index && removed == ip then 0 else ip) es fs
  standing-append ip (new_addr i added _ ∷ es) fs =
      standing-append (if i == if_index then added else ip) es fs
  standing-append ip (new_route _ _ ∷ es) fs = standing-append ip es fs
  standing-append ip (print_leased _ _ ∷ es) fs = standing-append ip es fs
  standing-append ip (print_lost ∷ es) fs = standing-append ip es fs

-- The client, and all that it has done.
pub record World : Type 0 where
  pub client : Client
  pub effects : List Effect

abbrev pub after : World → Client × List Effect → World
after w result = record { client = result.0; effects = w.effects ++ result.1 }

-- The leased address is the one that stands on the client's interface.
abbrev pub LeasedStands : World → Type 0
LeasedStands w = standing w.client.if_index 0 w.effects ≡ w.client.leased_ip

-- A handler that takes the leased address along, and keeps to the interface.
abbrev pub Carries : Client → Client × List Effect → Type 0
Carries c result =
    (standing c.if_index c.leased_ip result.1 ≡ result.0.leased_ip)
    × (result.0.if_index ≡ c.if_index)

-- It is enough to look at the new effects.
after-LeasedStands :
    (w : World) (result : Client × List Effect)
    → LeasedStands w
    → Carries w.client result
    → LeasedStands (after w result)
after-LeasedStands w result h (s, same) =
    ap (λ i. standing i 0 (w.effects ++ result.1)) same
    ∙ standing-append w.client.if_index 0 w.effects result.1
    ∙ ap (λ ip. standing w.client.if_index ip result.1) h
    ∙ s

on_timer-Carries : (c : Client) → Carries c (on_timer c)
unfolding on_timer
on_timer-Carries c = (ground arith, ground arith)

on_ack-Carries :
    (c : Client) (buffer : List ℕ) (dns : Option ℕ) (mask router lease : ℕ)
    → Carries c (on_ack c buffer dns mask router lease)
unfolding on_ack
on_ack-Carries c buffer dns mask router lease = (ground arith, ground arith)

-- The three options that an ACK needs.
dispatch-ack-Carries :
    (c : Client) (buffer : List ℕ) (f : Found) (mask router lease : Option ℕ)
    → f.subnet_mask ≡ mask
    → f.router ≡ router
    → f.lease_time ≡ lease
    → Carries c (dispatch c buffer f Kind.ack)
unfolding dispatch
dispatch-ack-Carries c buffer f none router lease em er el = rw (em, dispatch) (refl, refl)
dispatch-ack-Carries c buffer f (some m) none lease em er el = rw (em, er, dispatch) (refl, refl)
dispatch-ack-Carries c buffer f (some m) (some r) none em er el =
    rw (em, er, el, dispatch) (refl, refl)
dispatch-ack-Carries c buffer f (some m) (some r) (some l) em er el =
    rw (em, er, el, dispatch) (on_ack-Carries c buffer f.dns m r l)

dispatch-offer-Carries :
    (c : Client) (buffer : List ℕ) (f : Found) (lease : Option ℕ)
    → f.lease_time ≡ lease
    → Carries c (dispatch c buffer f Kind.offer)
unfolding dispatch on_offer
dispatch-offer-Carries c buffer f none el = rw (el, dispatch) (refl, refl)
dispatch-offer-Carries c buffer f (some l) el = rw (el, dispatch) (refl, refl)

dispatch_other :
    (c : Client) (buffer : List ℕ) (f : Found) (kind : ℕ)
    → kind ≢ Kind.offer
    → kind ≢ Kind.ack
    → dispatch c buffer f kind ≡ (c, if kind == Kind.nak then set_timer 5 ∷ [] else [])
unfolding dispatch
dispatch_other c buffer f kind not_offer not_ack = ground arith

dispatch-Carries :
    (c : Client) (buffer : List ℕ) (f : Found) (kind : ℕ) → Carries c (dispatch c buffer f kind)
dispatch-Carries c buffer f kind = elim (ℕ_discrete kind Kind.offer) [
  | yes e ↦ rw e (dispatch-offer-Carries c buffer f f.lease_time refl)
  | no ne ↦ elim (ℕ_discrete kind Kind.ack) [
    | yes e ↦
        rw e (dispatch-ack-Carries c buffer f f.subnet_mask f.router f.lease_time refl refl refl)
    | no na ↦ rw (dispatch_other c buffer f kind ne na) (quiet (kind == Kind.nak))
  ]
]
  where
    quiet : (b : Bool) → Carries c (c, if b then set_timer 5 ∷ [] else [])
    quiet true = (refl, refl)
    quiet false = (refl, refl)

handle-Carries :
    (c : Client) (buffer : List ℕ) (num_read : ℕ) (f : Found)
    → Carries c (handle c buffer num_read f)
unfolding handle
handle-Carries c buffer num_read f = elim (Bool-cases (ltb num_read At.options)) [
  | inl short ↦ rw (short, handle) (refl, refl)
  | inr long ↦ elim (Bool-cases (same_bytes (window buffer At.client_hw_addr 6) c.if_mac_address)) [
    | inl ours ↦ rw (long, ours, handle) (noted f.message_type refl)
    | inr theirs ↦ rw (long, theirs, handle) (refl, refl)
  ]
]
  where
    noted :
        (o : Option ℕ)
        → f.message_type ≡ o
        → Carries c (elim (f.message_type) [
          | none ↦ (c, [])
          | some o ↦ dispatch c buffer f (byte_at buffer (o + 2))
        ])
    noted none e = rw e (refl, refl)
    noted (some o) e = rw e (dispatch-Carries c buffer f (byte_at buffer (o + 2)))

-- The timer, and any message.
pub data Step : World → World → Type 0 where
  tick : (w : World) → Step w (after w (on_timer w.client))
  message :
      (w : World) (buffer : List ℕ) (num_read : ℕ)
      → Step w (after w (on_fd w.client buffer num_read))

pub data Reach (start : World) : World → Type 0 where
  here : Reach start start
  next : {v w : World} → Reach start v → Step v w → Reach start w

Step-LeasedStands : {v w : World} → Step v w → LeasedStands v → LeasedStands w
Step-LeasedStands (tick w) h =
    after-LeasedStands w (on_timer w.client) h (on_timer-Carries w.client)
Step-LeasedStands (message w buffer n) h =
    after-LeasedStands w (on_fd w.client buffer n) h
      (unfold on_fd in handle-Carries w.client buffer n _)

-- From a client without a lease that has done nothing, whatever the timer and the received messages
-- do, in any order and with any contents, the leased address is the one that the client configured
-- last on its interface and has not removed from it since, or 0 if there is none.
pub leased_address_stands :
    (start w : World)
    → start.client.leased_ip ≡ 0
    → start.effects ≡ []
    → Reach start w
    → standing w.client.if_index 0 w.effects ≡ w.client.leased_ip
leased_address_stands start w unleased nothing here =
    ap (standing start.client.if_index 0) nothing ∙ sym unleased
leased_address_stands start w unleased nothing (next {v} r st) =
    Step-LeasedStands st (leased_address_stands start v unleased nothing r)

-- The addresses that effects configure, and those that they remove.
abbrev pub configured : List Effect → List ℕ
configured [] = []
configured (new_addr _ ip _ ∷ es) = ip ∷ configured es
configured (_ ∷ es) = configured es

abbrev pub removed : List Effect → List ℕ
removed [] = []
removed (del_addr _ ip ∷ es) = ip ∷ removed es
removed (_ ∷ es) = removed es

-- An ACK that names an address configures exactly that and removes none, also if the client has
-- another one; and if it is not renewed, the next two expiries of the timer configure none and
-- remove exactly the address of the ACK, never an earlier one.
pub old_address_stays :
    (c : Client) (buffer : List ℕ) (dns : Option ℕ) (mask router lease : ℕ)
    → word_at buffer At.your_ip ≢ 0
    → let your_ip = word_at buffer At.your_ip in
      let acked = on_ack c buffer dns mask router lease in
      let once = on_timer acked.0 in
      let twice = on_timer once.0 in
      (configured acked.1 ≡ your_ip ∷ [])
      × (removed acked.1 ≡ [])
      × (configured (once.1 ++ twice.1) ≡ [])
      × (removed (once.1 ++ twice.1) ≡ your_ip ∷ [])
unfolding on_ack on_timer
old_address_stays c buffer dns mask router lease named =
    (ground arith, ground arith, ground arith, ground arith)
