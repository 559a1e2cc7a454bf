-- ===== src/Dhcp/Server/Tests.antt =====
-- Runs of the server on small tables, and the theorems at concrete inputs.
use hc.Base.{
  ℕ, zero, suc, ◌+◌, ◌≡◌, ◌≢◌, refl, arith, true, false, List, [], ◌∷◌, ◌++◌, none, some, replicate,
  get_elem?, window, byte_at,
}
use hc.Dhcp.Kind
use hc.Dhcp.At
use hc.Dhcp.Code
use hc.Dhcp.Options.{find_message_type}
use hc.Dhcp.Server.{
  Entry, Server, Datagram, same_bytes, get_entry, serve, make_reply, on_fd, num_entries,
}
use hc.Dhcp.Server.Table.{Answer, get_entry-Answer}
use hc.Dhcp.Server.Distinct.{at_start, after, leases_differ}
use hc.Dhcp.Server.Replies.{Answers, on_fd-Answers}

abbrev mac_a : List ℕ
mac_a = 2 ∷ 0 ∷ 0 ∷ 0 ∷ 0 ∷ 7 ∷ []

abbrev mac_b : List ℕ
mac_b = 2 ∷ 0 ∷ 0 ∷ 0 ∷ 0 ∷ 9 ∷ []

abbrev unused : Entry
unused = record { time_sec = 0; mac_addr = 0 ∷ 0 ∷ 0 ∷ 0 ∷ 0 ∷ 0 ∷ [] }

abbrev two : List Entry
two = unused ∷ unused ∷ []

-- The first device gets entry 0 and the second entry 1; then the older one is evicted.
table_runs :
    ((get_entry two mac_a true 5).0 ≡ some 0)
    × ((get_entry (get_entry two mac_a true 5).1 mac_b true 6).0 ≡ some 1)
    × ((get_entry (get_entry two mac_a true 5).1 mac_a false 8).0 ≡ some 0)
    × ((get_entry two mac_a false 5).0 ≡ none)
unfolding get_entry same_bytes
table_runs = (refl, refl, refl, refl)

get_entry-Answer_example : Answer two mac_a true 5 (get_entry two mac_a true 5)
get_entry-Answer_example = get_entry-Answer unused (unused ∷ []) mac_a true 5

all_unused : (j : ℕ) (e : Entry) → get_elem? two j ≡ some e → e.time_sec ≡ 0
all_unused zero e h = ground arith
all_unused (suc zero) e h = ground arith
all_unused (suc (suc j)) e h = cc

abbrev leased : List Entry
leased = (get_entry (get_entry two mac_a true 5).1 mac_b true 6).1

abbrev entry_a : Entry
entry_a = record { time_sec = 5; mac_addr = mac_a }

abbrev entry_b : Entry
entry_b = record { time_sec = 6; mac_addr = mac_b }

leased_entries : (get_elem? leased 0 ≡ some entry_a) × (get_elem? leased 1 ≡ some entry_b)
unfolding get_entry same_bytes
leased_entries = (refl, refl)

leases_differ_example : entry_a.mac_addr ≢ entry_b.mac_addr
leases_differ_example =
    leases_differ two leased all_unused (after mac_b true 6 (after mac_a true 5 at_start)) 0 1
      entry_a entry_b (omega arith) leased_entries.0 leased_entries.1 (omega arith) (omega arith)

-- A DISCOVER of 243 bytes.
abbrev discover : List ℕ
discover =
    replicate 28 0 ++ (mac_a ++ (replicate 206 0 ++ (Code.message_type ∷ 1 ∷ Kind.discover ∷ [])))

abbrev server : Server
server = record { server_ip = 10 ∷ 123 ∷ 0 ∷ 1 ∷ []; entries = replicate num_entries unused }

abbrev offer : Datagram
offer = make_reply server discover 0 true 0

discover_runs : on_fd server discover 243 5 0 ≡ ((on_fd server discover 243 5 0).0, some offer)
unfolding on_fd serve get_entry same_bytes find_message_type
discover_runs = refl

on_fd-Answers_example :
    (o : ℕ) × (find_message_type 244 discover 243 At.options none ≡ some o)
    × Answers server
        (on_fd server discover 243 5 0).0
        (window discover At.client_hw_addr 6)
        5
        (byte_at discover (o + 2))
        offer
on_fd-Answers_example = on_fd-Answers server discover 243 5 0 refl discover_runs
