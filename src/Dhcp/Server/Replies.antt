-- ===== src/Dhcp/Server/Replies.antt =====
-- A reply offers or acknowledges exactly the address of the entry that the device has in the table.
use hc.Base.{
  ℕ, zero, suc, ◌+◌, ◌%◌, ◌^◌, ◌<◌, ◌==◌, ◌≡◌, ◌≢◌, ◌⊎◌, inl, inr, refl, ap, sym, ◌∙◌, arith, Bool,
  List, [], ◌∷◌, ◌++◌, Option, none, some, length, get_elem?, take, window, byte_at, ltb,
  Bool-cases, get_elem?-set_self, subst, ℕ_discrete, Option-cases,
}
use mathlib.Core.Path.{subst₂}
use hc.Dhcp.Kind
use hc.Dhcp.At
use hc.Dhcp.Options.{find_message_type}
use hc.Dhcp.Server.{
  Entry, Server, Datagram, refresh, get_entry, make_reply, serve, on_fd, num_entries, first_octet,
}
use hc.Dhcp.Server.Table.{Answer, known, created, refused, get_entry-Answer}

-- The entry at an index belongs to a device, since a time.
pub record IsLease (table : List Entry) (i : ℕ) (mac : List ℕ) (now : ℕ) : Type 0 where
  pub entry : Entry
  pub at_index : get_elem? table i ≡ some entry
  pub has_mac : entry.mac_addr ≡ mac
  pub has_time : entry.time_sec ≡ now

get_elem?-lt :
    (table : List Entry) (i : ℕ) (e : Entry) → get_elem? table i ≡ some e → i < length table
get_elem?-lt [] i e h = cc
get_elem?-lt (x ∷ xs) zero e h = omega arith
get_elem?-lt (x ∷ xs) (suc i) e h = omega (arith, get_elem?-lt xs i e h)

get_elem?-refresh :
    (now i : ℕ) (table : List Entry) (e : Entry)
    → get_elem? table i ≡ some e
    → get_elem? (refresh now i table) i ≡ some (record e { time_sec = now })
unfolding refresh
get_elem?-refresh now i [] e h = cc
get_elem?-refresh now zero (x ∷ xs) e h =
    let q : x ≡ e = cc in ap {A = Entry} (λ t. some (record t { time_sec = now })) q
get_elem?-refresh now (suc i) (x ∷ xs) e h = get_elem?-refresh now i xs e h

get_entry-IsLease :
    (table : List Entry) (mac : List ℕ) (allow_create : Bool) (now i : ℕ)
    → (get_entry table mac allow_create now).0 ≡ some i
    → (i < length table) × IsLease (get_entry table mac allow_create now).1 i mac now
get_entry-IsLease [] mac allow now i h = absurd (unfold get_entry in cc)
get_entry-IsLease (x ∷ xs) mac allow now i h = go (get_entry-Answer x xs mac allow now)
  where
    table : List Entry
    table = x ∷ xs

    result : Option ℕ × List Entry
    result = get_entry (x ∷ xs) mac allow now

    go : Answer (x ∷ xs) mac allow now result → (i < length table) × IsLease result.1 i mac now
    go (known j hit r t) =
        let q : j ≡ i = cc in
        subst (λ n. (n < length table) × IsLease result.1 n mac now) q
          (
            get_elem?-lt table j hit.entry hit.at_index,
            record {
              entry = record (hit.entry) { time_sec = now };
              at_index = rw t (get_elem?-refresh now j table hit.entry hit.at_index);
              has_mac = hit.has_mac;
              has_time = refl;
            },
          )
    go (created j old c r t) =
        let q : j ≡ i = cc in
        let lt = get_elem?-lt table j old.entry old.at_index in
        subst (λ n. (n < length table) × IsLease result.1 n mac now) q
          (
            lt,
            record {
              entry = record { time_sec = now; mac_addr = mac };
              at_index = rw t (get_elem?-set_self table j _ lt);
              has_mac = refl;
              has_time = refl;
            },
          )
    go (refused absent c r t) = cc

-- What a datagram of the server says, to a device that sent a message of this kind.
pub record Answers (s s' : Server) (mac : List ℕ) (now kind : ℕ) (d : Datagram) : Type 0 where
  pub index : ℕ
  pub in_table : index < num_entries
  pub lease : IsLease s'.entries index mac now
  pub address : d.reply.your_ip ≡ take 3 s.server_ip ++ ((first_octet + index) ∷ [])
  pub mac_kept : d.reply.client_hw_addr ≡ mac
  pub server : (d.reply.server_ip ≡ s.server_ip) × (s'.server_ip ≡ s.server_ip)
  pub offers :
      ((kind ≡ Kind.discover) × (d.reply.message_type ≡ Kind.offer))
      ⊎ ((kind ≡ Kind.request) × (d.reply.message_type ≡ Kind.ack))

octet_fits : (index : ℕ) → index < num_entries → (first_octet + index) % 2 ^ 8 ≡ first_octet + index
octet_fits index h = omega arith

abbrev mac_of : List ℕ → List ℕ
mac_of buffer = window buffer At.client_hw_addr 6

-- What is served, once the kind is known to be one of the two and the table has answered.
serve_found :
    (s : Server) (buffer : List ℕ) (now wan_dns kind index : ℕ)
    → (kind ≡ Kind.discover) ⊎ (kind ≡ Kind.request)
    → (get_entry s.entries (mac_of buffer) (kind == Kind.discover) now).0 ≡ some index
    → serve s buffer now wan_dns kind ≡ (
      record s { entries = (get_entry s.entries (mac_of buffer) (kind == Kind.discover) now).1 },
      some (make_reply s buffer wan_dns (kind == Kind.discover) index),
    )
unfolding serve
serve_found s buffer now wan_dns kind index k e = elim k [
  | inl d ↦ rw (e, serve) (ground arith)
  | inr r ↦ rw (e, serve) (ground arith)
]

serve-none :
    (s : Server) (buffer : List ℕ) (now wan_dns kind : ℕ)
    → (get_entry s.entries (mac_of buffer) (kind == Kind.discover) now).0 ≡ none
    → (serve s buffer now wan_dns kind).1 ≡ none
unfolding serve
serve-none s buffer now wan_dns kind e = rw (e, serve) (ground arith)

serve_other :
    (s : Server) (buffer : List ℕ) (now wan_dns kind : ℕ)
    → kind ≢ Kind.discover
    → kind ≢ Kind.request
    → serve s buffer now wan_dns kind ≡ (s, none)
unfolding serve
serve_other s buffer now wan_dns kind nd nr = ground arith

make_reply-Answers :
    (s : Server) (buffer : List ℕ) (now wan_dns kind index : ℕ)
    → (kind ≡ Kind.discover) ⊎ (kind ≡ Kind.request)
    → length s.entries ≡ num_entries
    → (get_entry s.entries (mac_of buffer) (kind == Kind.discover) now).0 ≡ some index
    → Answers s
        (record s { entries = (get_entry s.entries (mac_of buffer) (kind == Kind.discover) now).1 })
        (mac_of buffer)
        now
        kind
        (make_reply s buffer wan_dns (kind == Kind.discover) index)
unfolding make_reply
make_reply-Answers s buffer now wan_dns kind index k len e =
    let (lt, lease) =
      get_entry-IsLease s.entries (mac_of buffer) (kind == Kind.discover) now index e in
    record {
      index = index;
      in_table = omega arith;
      lease = lease;
      address = ap (λ o. take 3 s.server_ip ++ (o ∷ [])) (octet_fits index (omega arith));
      mac_kept = refl;
      server = (refl, refl);
      offers = elim k [ inl d ↦ inl (d, ground arith) | inr r ↦ inr (r, ground arith) ];
    }

serve-Answers :
    (s : Server) (buffer : List ℕ) (now wan_dns kind : ℕ) {s' : Server} {d : Datagram}
    → length s.entries ≡ num_entries
    → serve s buffer now wan_dns kind ≡ (s', some d)
    → Answers s s' (window buffer At.client_hw_addr 6) now kind d
serve-Answers s buffer now wan_dns kind {s'} {d} len h = elim (ℕ_discrete kind Kind.discover) [
  | yes e ↦ served (inl e) (Option-cases _)
  | no nd ↦ elim (ℕ_discrete kind Kind.request) [
    | yes e ↦ served (inr e) (Option-cases _)
    | no nr ↦ cc (serve_other s buffer now wan_dns kind nd nr)
  ]
]
  where
    found : Option ℕ
    found = (get_entry s.entries (mac_of buffer) (kind == Kind.discover) now).0

    served :
        (kind ≡ Kind.discover) ⊎ (kind ≡ Kind.request)
        → (found ≡ none) ⊎ ((i : ℕ) × (found ≡ some i))
        → Answers s s' (mac_of buffer) now kind d
    served k (inl e) = cc (serve-none s buffer now wan_dns kind e, ap (λ p. p.1) h)
    served k (inr (i, e)) =
        let q = sym (serve_found s buffer now wan_dns kind i k e) ∙ h in
        let p = ap (λ p. p.0) q in
        let r : make_reply s buffer wan_dns (kind == Kind.discover) i ≡ d = cc (ap (λ p. p.1) q) in
        subst₂ (λ a b. Answers s a (mac_of buffer) now kind b) p r
          (make_reply-Answers s buffer now wan_dns kind i k len e)

-- `dhcpServer_onFd` sends nothing but answers: if it sends a datagram, then the message has a
-- message type option, whose value was DISCOVER, answered by an OFFER, or REQUEST, answered by an ACK; the new table has at an index
-- below 215 the lease of the device, of the present time; and the address sent to the device is the
-- first three bytes of the server's with 40 plus that index, which does not wrap.
pub on_fd-Answers :
    (s : Server) (buffer : List ℕ) (num_read now wan_dns : ℕ) {s' : Server} {d : Datagram}
    → length s.entries ≡ num_entries
    → on_fd s buffer num_read now wan_dns ≡ (s', some d)
    → (o : ℕ) × (find_message_type (suc num_read) buffer num_read At.options none ≡ some o)
      × Answers s s' (window buffer At.client_hw_addr 6) now (byte_at buffer (o + 2)) d
unfolding on_fd
on_fd-Answers s buffer num_read now wan_dns {s'} {d} len h =
    elim (Bool-cases (ltb num_read At.options)) [
      | inl short ↦ cc (rw (short, on_fd) at h)
      | inr long ↦
          noted (rw (long, on_fd) at h)
            (find_message_type (suc num_read) buffer num_read At.options none) refl
    ]
  where
    noted :
        ◌≡◌ {A = Server × Option Datagram}
          (elim (find_message_type (suc num_read) buffer num_read At.options none) [
            | none ↦ (s, none)
            | some o ↦ serve s buffer now wan_dns (byte_at buffer (o + 2))
          ])
          (s', some d)
        → (m : Option ℕ) → find_message_type (suc num_read) buffer num_read At.options none ≡ m
        → (o : ℕ) × (find_message_type (suc num_read) buffer num_read At.options none ≡ some o)
          × Answers s s' (mac_of buffer) now (byte_at buffer (o + 2)) d
    noted h none e = cc (rw e at h)
    noted h (some o) e =
        (o, e, serve-Answers s buffer now wan_dns (byte_at buffer (o + 2)) len (rw e at h))
