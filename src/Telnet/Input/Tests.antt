-- ===== src/Telnet/Input/Tests.antt =====
-- A window size that arrives in two parts.
use hc.Base.{ℕ, ◌≡◌, ◌⊎◌, refl, Bool, true, List, [], ◌∷◌, ◌++◌, some, none, replicate}
use hc.Telnet.{Server, Call, written, resized, call, call_text, text, behind}
use hc.Telnet.Command.{
  read_on, get_byte_or_save, get_naws_byte, get_naws_u16_or_save, naws, subnegotiation, iac_command,
  cr_command, command,
}
use hc.Telnet.Saved.{put_saved, take_saved, clear_saved}
use hc.Telnet.Input.{starts_command, and_read, call_for, obey, read_loop, end_reading, on_client_fd}
use hc.Telnet.Input.Reference.{events}
use hc.Telnet.Input.Split.{on_client_fd_split}

abbrev always : List Call → Bool
always t = true

abbrev connected : Server
connected = record { client_fd = some 9; saved = replicate 12 0 }

abbrev first_part : List ℕ
first_part = b'l' ∷ b's' ∷ 255 ∷ 250 ∷ 31 ∷ 0 ∷ 80 ∷ []

abbrev second_part : List ℕ
second_part = 0 ∷ 24 ∷ 255 ∷ 240 ∷ 13 ∷ 0 ∷ []

hears_size :
    (on_client_fd always connected (first_part ++ second_part) []).1
    ≡ written (13 ∷ []) ∷ resized 80 24 ∷ written (b'l' ∷ b's' ∷ []) ∷ []
unfolding on_client_fd end_reading read_loop obey call_for and_read starts_command put_saved
    take_saved clear_saved read_on get_byte_or_save get_naws_byte get_naws_u16_or_save naws
    subnegotiation iac_command cr_command command call call_text text behind
hears_size = refl

on_client_fd_split_example :
    let first = on_client_fd always connected first_part [] in
    let second = on_client_fd always first.0 second_part first.1 in
    let whole = on_client_fd always connected (first_part ++ second_part) [] in
    ((first.0.client_fd ≡ none) × (whole.0 ≡ first.0) × (events whole.1 ≡ events first.1))
    ⊎ ((first.0.client_fd ≡ some 9) × (whole.0 ≡ second.0) × (events whole.1 ≡ events second.1))
on_client_fd_split_example =
    on_client_fd_split always (λ t. refl) connected 9 first_part second_part [] refl refl (λ e. cc)
      (λ e. cc)
