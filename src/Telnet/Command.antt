-- ===== src/Telnet/Command.antt =====
-- router/router/telnetServer.c: `_telnetServer_getByteOrSave`, `_telnetServer_getNawsU16OrSave` and
-- the `switch` of `telnetServer_onClientFd`: how one command of the client is read.
pub mod Prefix
use hc.Base.{
  ℕ, zero, suc, ◌+◌, ◌*◌, ◌%◌, ◌^◌, ◌==◌, leb, if◌then◌else◌, Bool, not, ◌&&◌, ◌||◌, List, [], ◌∷◌,
  Option, none, some, bit_or,
}
use hc.Telnet.Code
use hc.Telnet.{Call, written, resized}

-- A reading: -1, for a command that is saved, -2, or a value and the place behind it.
pub data Reading (A : Type 0) : Type 0 where
  save : Reading A
  refuse : Reading A
  read : A → List ℕ → Reading A

-- The two early returns on a negative result.
unfoldable pub read_on : {A B : Type 0} → Reading A → (A → List ℕ → Reading B) → Reading B
read_on save k = save
read_on refuse k = refuse
read_on (read a rest) k = k a rest

-- `_telnetServer_getByteOrSave`
unfoldable pub get_byte_or_save : List ℕ → Reading ℕ
get_byte_or_save [] = save
get_byte_or_save (c ∷ cs) = read c cs

-- A byte of a size, where IAC is doubled.
unfoldable pub get_naws_byte : List ℕ → Reading ℕ
get_naws_byte bytes = read_on (get_byte_or_save bytes) (λ b rest.
    if b == Code.iac
    then read_on (get_byte_or_save rest)
        (λ again rest'. if again == Code.iac then read again rest' else refuse)
    else read b rest)

-- `_telnetServer_getNawsU16OrSave`; `(uint16_t)(msb << 8) | lsb`.
unfoldable pub get_naws_u16_or_save : List ℕ → Reading ℕ
get_naws_u16_or_save bytes = read_on (get_naws_byte bytes) (λ msb rest.
    read_on (get_naws_byte rest) (λ lsb rest'. read (bit_or (msb * 2 ^ 8 % 2 ^ 16) lsb) rest'))

-- The case `telnet_OPT_NAWS`. The value of a command is the call that it asks for.
unfoldable pub naws : List ℕ → Reading (Option Call)
naws bytes = read_on (get_naws_u16_or_save bytes) (λ col rest0.
    read_on (get_naws_u16_or_save rest0) (λ row rest1.
      read_on (get_byte_or_save rest1) (λ iac rest2. read_on (get_byte_or_save rest2) (λ se rest3.
        if iac == Code.iac && se == Code.se then read (some (resized col row)) rest3 else refuse))))

-- The case `telnet_SB`.
unfoldable pub subnegotiation : List ℕ → Reading (Option Call)
subnegotiation bytes =
    read_on (get_byte_or_save bytes)
      (λ opt rest. if opt == Code.opt_naws then naws rest else refuse)

-- The `switch (followup)` behind IAC.
unfoldable pub iac_command : ℕ → List ℕ → Reading (Option Call)
iac_command followup rest =
    if leb Code.nop followup && leb followup Code.go_ahead
    then read none rest
    else if leb Code.will followup && leb followup Code.dont
    then read_on (get_byte_or_save rest) (λ opt rest'. read none rest')
    else if followup == Code.iac
    then read (some (written (Code.iac ∷ []))) rest
    else if followup == Code.sb
    then subnegotiation rest
    else refuse

-- Behind CR.
unfoldable pub cr_command : ℕ → List ℕ → Reading (Option Call)
cr_command followup rest =
    if followup == 0 || followup == 10 then read (some (written (13 ∷ []))) rest else refuse

-- The command that `c`, which is IAC or CR, begins.
unfoldable pub command : ℕ → List ℕ → Reading (Option Call)
command c bytes =
    read_on (get_byte_or_save bytes) (λ followup rest.
      if c == Code.iac then iac_command followup rest else cr_command followup rest)
