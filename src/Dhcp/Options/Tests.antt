-- ===== src/Dhcp/Options/Tests.antt =====
-- The walks over the options at a concrete message.
use hc.Base.{ℕ, ◌≡◌, refl, arith, List, [], ◌∷◌, ◌++◌, some, none, byte_at-append}
use hc.Dhcp.Options.{nothing_found, find_options, find_message_type, note_option}
use hc.Dhcp.Options.Bounds.{AllHold, Walk, find_options_lem}
use hc.Dhcp.Options.Stale.{find_options_stale}

-- A message type, a router with two addresses, the end.
abbrev message : List ℕ
message = 53 ∷ 1 ∷ 5 ∷ 3 ∷ 8 ∷ 10 ∷ 123 ∷ 0 ∷ 1 ∷ 10 ∷ 123 ∷ 0 ∷ 2 ∷ 255 ∷ 0 ∷ []

finds_two :
    find_options 16 message 15 0 nothing_found
    ≡ record nothing_found { message_type = some 0; router = some 3 }
unfolding find_options note_option
finds_two = refl

find_options_lem_example :
    AllHold message 15 (find_options 16 message 15 0 nothing_found)
    × Walk message 15 0 nothing_found (find_options 16 message 15 0 nothing_found)
    × (find_options 20 message 15 0 nothing_found ≡ find_options 16 message 15 0 nothing_found)
    × (find_message_type 16 message 15 0 none
        ≡ (find_options 16 message 15 0 nothing_found).message_type)
find_options_lem_example = find_options_lem message 15 0 4 (ground arith)

find_options_stale_example :
    find_options 16 (message ++ 51 ∷ 4 ∷ []) 15 0 nothing_found
    ≡ find_options 16 message 15 0 nothing_found
find_options_stale_example =
    find_options_stale 16 0 (message ++ 51 ∷ 4 ∷ []) message 15
      (byte_at-append message (51 ∷ 4 ∷ []))
