-- ===== src/Telnet/Output/Tests.antt =====
-- What is sent for concrete bytes.
use hc.Base.{ℕ, ◌≡◌, refl, Bool, true, List, [], ◌∷◌, some, replicate}
use hc.Telnet.{Server, Call, sent, call, call_text, settle, and_then, text, behind}
use hc.Telnet.Output.{is_special, escape, send_special, send_loop, on_pt_master_fd}
use hc.Telnet.Output.Escape.{plain, peer_reads, sent_bytes, on_pt_master_fd_lem}

abbrev always : List Call → Bool
always t = true

abbrev connected : Server
connected = record { client_fd = some 9; saved = replicate 12 0 }

sends_three :
    on_pt_master_fd always connected (b'a' ∷ 10 ∷ b'b' ∷ []) []
    ≡ (connected, sent 9 (b'b' ∷ []) ∷ sent 9 (13 ∷ 10 ∷ []) ∷ sent 9 (b'a' ∷ []) ∷ [])
unfolding on_pt_master_fd send_loop send_special escape is_special call call_text settle and_then
    text behind
sends_three = refl

on_pt_master_fd_lem_example :
    (encoded : List ℕ) × (peer_reads plain encoded ≡ some (b'a' ∷ 13 ∷ 255 ∷ []))
    × ((on_pt_master_fd always connected (b'a' ∷ 13 ∷ 255 ∷ []) []).0 ≡ connected)
    × (sent_bytes (on_pt_master_fd always connected (b'a' ∷ 13 ∷ 255 ∷ []) []).1 ≡ encoded)
on_pt_master_fd_lem_example =
    on_pt_master_fd_lem always (λ t. refl) connected 9 (b'a' ∷ 13 ∷ 255 ∷ []) [] refl
