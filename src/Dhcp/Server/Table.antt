-- ===== src/Dhcp/Server/Table.antt =====
-- The lease table: what `dhcpServer_getEntry` finds, and that the addresses of two devices differ.
use hc.Base.{
  ℕ, zero, suc, ◌+◌, ◌-◌, ◌≤◌, ◌<◌, ◌≡◌, ◌≢◌, ◌↔◌, inl, inr, refl, ap, sym, arith, Bool, true,
  false, if◌then◌else◌, List, [], ◌∷◌, Option, none, some, get_elem?, set, ltb, Bool-cases, subst,
  dec_lt, ltb→lt,
}
use native.Mathlib.Nat.{add-zero}
use hc.Dhcp.Server.{Entry, Scan, hit, oldest, same_bytes, scan, refresh, get_entry}

pub same_bytes_iff : (a b : List ℕ) → (same_bytes a b ≡ true) ↔ (a ≡ b)
unfolding same_bytes
same_bytes_iff [] [] = (λ h. refl, λ h. refl)
same_bytes_iff (x ∷ a) [] = (λ h. cc, λ h. cc)
same_bytes_iff [] (y ∷ b) = (λ h. cc, λ h. cc)
same_bytes_iff (x ∷ a) (y ∷ b) = ground (arith, same_bytes_iff a b)

-- The entry at an index.
abbrev pub EntryAt : List Entry → ℕ → Entry → Type 0
EntryAt table i e = get_elem? table i ≡ some e

-- What the scan of a table says, for the part from index `lo` on and an oldest entry so far.
pub record IsHit (table : List Entry) (mac : List ℕ) (i : ℕ) : Type 0 where
  pub entry : Entry
  pub at_index : get_elem? table i ≡ some entry
  pub has_mac : entry.mac_addr ≡ mac
  pub first : (j : ℕ) (e : Entry) → j < i → get_elem? table j ≡ some e → e.mac_addr ≢ mac

pub record IsOldest (table : List Entry) (mac : List ℕ) (i : ℕ) : Type 0 where
  pub entry : Entry
  pub at_index : get_elem? table i ≡ some entry
  pub no_older : (j : ℕ) (e : Entry) → get_elem? table j ≡ some e → entry.time_sec ≤ e.time_sec
  pub absent : (j : ℕ) (e : Entry) → get_elem? table j ≡ some e → e.mac_addr ≢ mac

abbrev pub Scanned : List Entry → List ℕ → Scan → Type 0
Scanned table mac (hit i) = IsHit table mac i
Scanned table mac (oldest i) = IsOldest table mac i

-- What the loop knows before it looks at index `i`.
record Before (table : List Entry) (mac : List ℕ) (i oldest_index oldest_time : ℕ) : Type 0 where
  candidate : Entry
  candidate_at : get_elem? table oldest_index ≡ some candidate
  candidate_time : candidate.time_sec ≡ oldest_time
  no_older : (j : ℕ) (e : Entry) → j ≤ i → get_elem? table j ≡ some e → oldest_time ≤ e.time_sec
  absent : (j : ℕ) (e : Entry) → j < i → get_elem? table j ≡ some e → e.mac_addr ≢ mac

-- `rest` is the table from index `i` on.
abbrev From : List Entry → ℕ → List Entry → Type 0
From table i rest = (k : ℕ) → get_elem? table (i + k) ≡ get_elem? rest k

module _ (table : List Entry) where
  From-here :
      (i : ℕ) (e : Entry) (rest : List Entry) → From table i (e ∷ rest) → get_elem? table i ≡ some e
  From-here i e rest from = subst (λ n. get_elem? table n ≡ some e) (add-zero i) (from 0)

  From-next :
      (i : ℕ) (e : Entry) (rest : List Entry) → From table i (e ∷ rest) → From table (i + 1) rest
  From-next i e rest from k =
      let shift : i + suc k ≡ i + 1 + k = omega arith in
      subst (λ n. get_elem? table n ≡ get_elem? rest k) shift (from (suc k))

  From-end : (i j : ℕ) (e : Entry) → i < j → From table i (e ∷ []) → get_elem? table j ≡ none
  From-end i j e h from =
      let shift : i + 1 + (j - i - 1) ≡ j = omega arith in
      subst (λ n. get_elem? table n ≡ none) shift (From-next i e [] from (j - i - 1))

  module _ (mac : List ℕ) where
    -- A fact on the entries before `i` and one on the entry at `i` give it up to `i`.
    up_to :
        (P : Entry → Type 0) (i : ℕ) (e : Entry)
        → get_elem? table i ≡ some e
        → ((j : ℕ) (f : Entry) → j < i → get_elem? table j ≡ some f → P f)
        → P e
        → (j : ℕ) (f : Entry) → j ≤ i
        → get_elem? table j ≡ some f
        → P f
    up_to P i e here below at j f h g = elim (dec_lt j i) [
      | yes lt ↦ below j f lt g
      | no ge ↦
          let same : j ≡ i = omega arith in let same_entry : e ≡ f = cc in subst P same_entry at
    ]

    Before-next :
        (i : ℕ) (e e' : Entry) (rest : List Entry) (oi ot : ℕ)
        → From table i (e ∷ e' ∷ rest)
        → e.mac_addr ≢ mac
        → Before table mac i oi ot
        → Before table mac
            (i + 1)
            (if ltb e'.time_sec ot then i + 1 else oi)
            (if ltb e'.time_sec ot then e'.time_sec else ot)
    Before-next i e e' rest oi ot from ne b = elim (Bool-cases (ltb e'.time_sec ot)) [
      | inl older ↦ rw older (record {
        candidate = e';
        candidate_at = at_next;
        candidate_time = refl;
        no_older =
            up_to (λ f. e'.time_sec ≤ f.time_sec) (i + 1) e' at_next
              (λ j f h g. omega (arith, ltb→lt _ _ older, b.no_older j f (omega arith) g))
              (omega arith);
        absent = λ j f h g. absent_up j f (omega arith) g;
      })
      | inr newer ↦ rw newer (record {
        candidate = b.candidate;
        candidate_at = b.candidate_at;
        candidate_time = b.candidate_time;
        no_older =
            up_to (λ f. ot ≤ f.time_sec) (i + 1) e' at_next
              (λ j f h g. b.no_older j f (omega arith) g) (ground arith);
        absent = λ j f h g. absent_up j f (omega arith) g;
      })
    ]
      where
        at_next : get_elem? table (i + 1) ≡ some e'
        at_next = From-here (i + 1) e' rest (From-next i e (e' ∷ rest) from)

        absent_up : (j : ℕ) (f : Entry) → j ≤ i → get_elem? table j ≡ some f → f.mac_addr ≢ mac
        absent_up = up_to (λ f. f.mac_addr ≢ mac) i e (From-here i e (e' ∷ rest) from) b.absent ne

    found_here :
        (i : ℕ) (e : Entry) (rest : List Entry) (oi ot : ℕ)
        → From table i (e ∷ rest)
        → same_bytes mac e.mac_addr ≡ true
        → Before table mac i oi ot
        → IsHit table mac i
    found_here i e rest oi ot from same b = record {
      entry = e;
      at_index = From-here i e rest from;
      has_mac = sym ((same_bytes_iff mac e.mac_addr).0 same);
      first = b.absent;
    }

    differs-ne : (e : Entry) → same_bytes mac e.mac_addr ≡ false → e.mac_addr ≢ mac
    differs-ne e h q = cc ((same_bytes_iff mac e.mac_addr).1 (sym q))

    at_end :
        (i : ℕ) (e : Entry) (oi ot : ℕ)
        → From table i (e ∷ [])
        → e.mac_addr ≢ mac
        → Before table mac i oi ot
        → IsOldest table mac oi
    at_end i e oi ot from ne b = record {
      entry = b.candidate;
      at_index = b.candidate_at;
      no_older = λ j f g. rw b.candidate_time (b.no_older j f (within j f g) g);
      absent = λ j f g. absent_up j f (within j f g) g;
    }
      where
        within : (j : ℕ) (f : Entry) → get_elem? table j ≡ some f → j ≤ i
        within j f g = elim (dec_lt i j) [ yes h ↦ cc (From-end i j e h from) | no h ↦ omega arith ]

        absent_up : (j : ℕ) (f : Entry) → j ≤ i → get_elem? table j ≡ some f → f.mac_addr ≢ mac
        absent_up = up_to (λ f. f.mac_addr ≢ mac) i e (From-here i e [] from) b.absent ne

    scan-Scanned :
        (i : ℕ) (e : Entry) (rest : List Entry) (oi ot : ℕ)
        → From table i (e ∷ rest)
        → Before table mac i oi ot
        → Scanned table mac (scan mac i e rest oi ot)
    unfolding scan
    scan-Scanned i e [] oi ot from b = elim (Bool-cases (same_bytes mac e.mac_addr)) [
      | inl same ↦ rw same (found_here i e [] oi ot from same b)
      | inr differs ↦ rw differs (at_end i e oi ot from (differs-ne e differs) b)
    ]
    scan-Scanned i e (e' ∷ rest) oi ot from b = elim (Bool-cases (same_bytes mac e.mac_addr)) [
      | inl same ↦ rw same (found_here i e (e' ∷ rest) oi ot from same b)
      | inr differs ↦ rw differs (
          scan-Scanned (i + 1) e' rest _ _ (From-next i e (e' ∷ rest) from)
            (Before-next i e e' rest oi ot from (differs-ne e differs) b))
    ]

abbrev nonempty_scan : List ℕ → Entry → List Entry → Scan
nonempty_scan mac e rest = scan mac 0 e rest 0 e.time_sec

nonempty_scan-Scanned :
    (mac : List ℕ) (e : Entry) (rest : List Entry)
    → Scanned (e ∷ rest) mac (nonempty_scan mac e rest)
nonempty_scan-Scanned mac e rest =
    scan-Scanned (e ∷ rest) mac 0 e rest 0 e.time_sec (λ k. ap (get_elem? (e ∷ rest)) (omega arith))
      (record {
        candidate = e;
        candidate_at = refl;
        candidate_time = refl;
        no_older = λ j f h g. first_only j f h g;
        absent = λ j f h g. absurd (omega arith);
      })
  where
    first_only :
        (j : ℕ) (f : Entry) → j ≤ 0 → get_elem? (e ∷ rest) j ≡ some f → e.time_sec ≤ f.time_sec
    first_only zero f h g =
        let same_entry : e ≡ f = cc in subst (λ t. e.time_sec ≤ t.time_sec) same_entry (omega arith)
    first_only (suc j) f h g = absurd (omega arith)

-- How `dhcpServer_getEntry` answers: by the entry of the address, by the oldest one, or not at all.
pub data Answer (table : List Entry) (mac : List ℕ) (allow_create : Bool) (now : ℕ)
    (result : Option ℕ × List Entry) : Type 0 where
  known :
      (i : ℕ)
      → IsHit table mac i
      → result.0 ≡ some i
      → result.1 ≡ refresh now i table
      → Answer table mac allow_create now result
  created :
      (i : ℕ)
      → IsOldest table mac i
      → allow_create ≡ true
      → result.0 ≡ some i
      → result.1 ≡ set table i (record { time_sec = now; mac_addr = mac })
      → Answer table mac allow_create now result
  refused :
      ((j : ℕ) (e : Entry) → get_elem? table j ≡ some e → e.mac_addr ≢ mac)
      → allow_create ≡ false
      → result.0 ≡ none
      → result.1 ≡ table
      → Answer table mac allow_create now result

-- `dhcpServer_getEntry` on a table that is not empty: an address that is in the table gets the
-- index of its first entry, whose time becomes the current one; an address that is not gets, if
-- creating is allowed, an entry that no other is older than, which is overwritten, and otherwise
-- nothing, and the table stays as it is.
pub get_entry-Answer :
    (e : Entry) (rest : List Entry) (mac : List ℕ) (allow_create : Bool) (now : ℕ)
    → Answer (e ∷ rest) mac allow_create now (get_entry (e ∷ rest) mac allow_create now)
unfolding get_entry
get_entry-Answer e rest mac allow_create now =
    answer (nonempty_scan mac e rest) refl (nonempty_scan-Scanned mac e rest) allow_create refl
  where
    answer :
        (s : Scan)
        → nonempty_scan mac e rest ≡ s
        → Scanned (e ∷ rest) mac s
        → (b : Bool) → allow_create ≡ b
        → Answer (e ∷ rest) mac allow_create now (get_entry (e ∷ rest) mac allow_create now)
    answer (hit i) eq h b c = known i h (rw (eq, get_entry)) (rw (eq, get_entry))
    answer (oldest i) eq h true c = created i h c (rw (eq, get_entry, c)) (rw (eq, get_entry, c))
    answer (oldest i) eq h false c =
        refused h.absent c (rw (eq, get_entry, c)) (rw (eq, get_entry, c))
