-- ===== src/Dhcp/Server/Distinct.antt =====
-- No two leases of the table belong to one device, whatever requests come in.
use hc.Base.{
  ℕ, zero, suc, ◌<◌, ◌≡◌, ◌≢◌, ◌⊎◌, inl, inr, refl, ap, sym, ◌∙◌, arith, Bool, List, [], ◌∷◌, some,
  get_elem?, set, subst, dec_lt,
}
use hc.Dhcp.Server.{Entry, refresh, get_entry}
use hc.Dhcp.Server.Table.{IsHit, IsOldest, Answer, known, created, refused, get_entry-Answer}

-- A lease is the first entry with its address. (An unused entry may hold any address, since the
-- table is not cleared.)
abbrev pub LeasesFirst : List Entry → Type 0
LeasesFirst table =
    (i j : ℕ) (e f : Entry)
    → i < j
    → get_elem? table i ≡ some e
    → get_elem? table j ≡ some f
    → 0 < f.time_sec
    → e.mac_addr ≢ f.mac_addr

-- Where an entry of a refreshed table comes from.
refresh-origin :
    (now i : ℕ) (table : List Entry) (j : ℕ) (e : Entry)
    → get_elem? (refresh now i table) j ≡ some e
    → (old : Entry) × (get_elem? table j ≡ some old)
      × (e.mac_addr ≡ old.mac_addr)
      × ((j ≡ i) ⊎ (e.time_sec ≡ old.time_sec))
unfolding refresh
refresh-origin now i [] j e h = cc
refresh-origin now zero (x ∷ xs) zero e h =
    let q : record x { time_sec = now } ≡ e = cc in
    (x, refl, ap (λ t. t.mac_addr) (sym q), inl refl)
refresh-origin now zero (x ∷ xs) (suc j) e h = (e, h, refl, inr refl)
refresh-origin now (suc i) (x ∷ xs) zero e h = (e, h, refl, inr refl)
refresh-origin now (suc i) (x ∷ xs) (suc j) e h =
    let (old, at, mac, time) = refresh-origin now i xs j e h in (old, at, mac, step time)
  where
    step : {a b : ℕ} {P : Type 0} → (a ≡ b) ⊎ P → (suc a ≡ suc b) ⊎ P
    step (inl p) = inl (ap suc p)
    step (inr p) = inr p

set-origin :
    (table : List Entry) (i : ℕ) (new : Entry) (j : ℕ) (e : Entry)
    → get_elem? (set table i new) j ≡ some e
    → ((j ≡ i) × (e ≡ new)) ⊎ ((j ≢ i) × (get_elem? table j ≡ some e))
set-origin [] i new j e h = cc
set-origin (x ∷ xs) zero new zero e h = inl (refl, cc)
set-origin (x ∷ xs) zero new (suc j) e h = inr (omega arith, h)
set-origin (x ∷ xs) (suc i) new zero e h = inr (omega arith, h)
set-origin (x ∷ xs) (suc i) new (suc j) e h = ground (arith, set-origin xs i new j e h)

refresh-LeasesFirst :
    (table : List Entry) (mac : List ℕ) (now i : ℕ)
    → IsHit table mac i
    → LeasesFirst table
    → LeasesFirst (refresh now i table)
refresh-LeasesFirst table mac now i hit first a b e f lt ha hb used =
    let (e', ae, me, te) = refresh-origin now i table a e ha in
    let (f', bf, mf, tf) = refresh-origin now i table b f hb in
    λ same. go e' f' ae bf (sym me ∙ same ∙ mf) tf
  where
    go :
        (e' f' : Entry)
        → get_elem? table a ≡ some e'
        → get_elem? table b ≡ some f'
        → e'.mac_addr ≡ f'.mac_addr
        → (b ≡ i) ⊎ (f.time_sec ≡ f'.time_sec)
        → ⊥
    go e' f' ae bf same (inl at) =
        let q : get_elem? table i ≡ some f' = subst (λ n. get_elem? table n ≡ some f') at bf in
        let r : hit.entry ≡ f' = let s = hit.at_index in cc in
        hit.first a e' (omega arith) ae (same ∙ ap (λ t. t.mac_addr) (sym r) ∙ hit.has_mac)
    go e' f' ae bf same (inr time) = first a b e' f' lt ae bf (omega arith) same

set-LeasesFirst :
    (table : List Entry) (mac : List ℕ) (now i : ℕ)
    → IsOldest table mac i
    → LeasesFirst table
    → LeasesFirst (set table i (record { time_sec = now; mac_addr = mac }))
set-LeasesFirst table mac now i old first a b e f lt ha hb used =
    go (set-origin table i new a e ha) (set-origin table i new b f hb)
  where
    new : Entry
    new = record { time_sec = now; mac_addr = mac }

    go :
        ((a ≡ i) × (e ≡ new)) ⊎ ((a ≢ i) × (get_elem? table a ≡ some e))
        → ((b ≡ i) × (f ≡ new)) ⊎ ((b ≢ i) × (get_elem? table b ≡ some f))
        → e.mac_addr ≢ f.mac_addr
    go (inl (p, q)) (inl (r, s)) same = omega arith
    go (inl (p, q)) (inr (r, s)) same = old.absent b f s (sym same ∙ ap (λ t. t.mac_addr) q)
    go (inr (p, q)) (inl (r, s)) same = old.absent a e q (same ∙ ap (λ t. t.mac_addr) s)
    go (inr (p, q)) (inr (r, s)) same = first a b e f lt q s used same

get_entry-LeasesFirst :
    (table : List Entry) (mac : List ℕ) (allow_create : Bool) (now : ℕ)
    → LeasesFirst table
    → LeasesFirst (get_entry table mac allow_create now).1
get_entry-LeasesFirst [] mac allow now first = unfold get_entry in first
get_entry-LeasesFirst (x ∷ xs) mac allow now first = go (get_entry-Answer x xs mac allow now)
  where
    go :
        Answer (x ∷ xs) mac allow now (get_entry (x ∷ xs) mac allow now)
        → LeasesFirst (get_entry (x ∷ xs) mac allow now).1
    go (known i hit r t) =
        subst LeasesFirst (sym t) (refresh-LeasesFirst (x ∷ xs) mac now i hit first)
    go (created i old c r t) =
        subst LeasesFirst (sym t) (set-LeasesFirst (x ∷ xs) mac now i old first)
    go (refused absent c r t) = subst LeasesFirst (sym t) first

-- The calls of `dhcpServer_getEntry` in the order in which they are made.
pub data Reachable (start : List Entry) : List Entry → Type 0 where
  at_start : Reachable start start
  after :
      {table : List Entry} (mac : List ℕ) (allow_create : Bool) (now : ℕ)
      → Reachable start table
      → Reachable start (get_entry table mac allow_create now).1

Reachable-LeasesFirst :
    {start table : List Entry} → LeasesFirst start → Reachable start table → LeasesFirst table
Reachable-LeasesFirst h at_start = h
Reachable-LeasesFirst h (after {table} mac allow now r) =
    get_entry-LeasesFirst table mac allow now (Reachable-LeasesFirst h r)

-- After `dhcpServer_init`, which marks every entry unused and leaves any addresses in them, and any
-- calls of `dhcpServer_getEntry`, two different entries that are in use have different hardware
-- addresses: no device holds two leases.
pub leases_differ :
    (start table : List Entry)
    → ((j : ℕ) (e : Entry) → get_elem? start j ≡ some e → e.time_sec ≡ 0)
    → Reachable start table
    → (i j : ℕ) (e f : Entry) → i ≢ j
    → get_elem? table i ≡ some e
    → get_elem? table j ≡ some f
    → 0 < e.time_sec
    → 0 < f.time_sec
    → e.mac_addr ≢ f.mac_addr
leases_differ start table unused r i j e f ne hi hj ue uf =
    let first =
      Reachable-LeasesFirst (λ a b x y lt ha hb u. absurd (omega (arith, unused b y hb))) r in
    elim (dec_lt i j) [
      | yes lt ↦ first i j e f lt hi hj uf
      | no ge ↦ λ same. first j i f e (omega arith) hj hi ue (sym same)
    ]
