-- ===== src/Telnet/Command/Prefix.antt =====
-- How a reading of a command depends on the bytes that have arrived: it is saved only while it is
-- short, and what it says does not change when more bytes follow.
use hc.Base.{
  ℕ, ◌+◌, ◌≤◌, ◌<◌, ◌==◌, leb, ◌≡◌, refl, ap, ◌∙◌, arith, if◌then◌else◌, Bool, true, false, ◌&&◌,
  List, [], ◌∷◌, ◌++◌, none, some, length,
}
use hc.Telnet.Code
use hc.Telnet.{written}
use hc.Telnet.Command.{
  Reading, save, refuse, read, read_on, get_byte_or_save, get_naws_byte, get_naws_u16_or_save, naws,
  subnegotiation, iac_command, cr_command, command,
}

-- What a reader does with these bytes. It takes at most `most`, saves only fewer, and what it has
-- read or refused stays so when more bytes follow.
pub data Read {A : Type 0} (most : ℕ) (f : List ℕ → Reading A) (bytes : List ℕ) : Type 0 where
  saves : f bytes ≡ save → length bytes < most → Read most f bytes
  refuses : f bytes ≡ refuse → ((more : List ℕ) → f (bytes ++ more) ≡ refuse) → Read most f bytes
  reads :
      (a : A) (rest : List ℕ)
      → f bytes ≡ read a rest
      → length rest ≤ length bytes
      → length bytes ≤ length rest + most
      → ((more : List ℕ) → f (bytes ++ more) ≡ read a (rest ++ more))
      → Read most f bytes

abbrev pub IsReader : {A : Type 0} → ℕ → (List ℕ → Reading A) → Type 0
IsReader most f = (bytes : List ℕ) → Read most f bytes

weaken : {A : Type 0} {m n : ℕ} {f : List ℕ → Reading A} → m ≤ n → IsReader m f → IsReader n f
weaken {A} {m} {n} {f} h r bytes = elim (r bytes) [
  | saves e l ↦ saves e (omega arith)
  | refuses e g ↦ refuses e g
  | reads a rest e l k g ↦ reads a rest e l (omega arith) g
]

read-IsReader : {A : Type 0} (a : A) → IsReader 0 (read a)
read-IsReader a bytes = reads a bytes refl (omega arith) (omega arith) (λ more. refl)

refuse-IsReader : {A : Type 0} → IsReader {A = A} 0 (λ bytes. refuse)
refuse-IsReader bytes = refuses refl (λ more. refl)

get_byte_or_save-IsReader : IsReader 1 get_byte_or_save
unfolding get_byte_or_save
get_byte_or_save-IsReader [] = saves refl (omega arith)
get_byte_or_save-IsReader (c ∷ cs) = reads c cs refl (omega arith) (omega arith) (λ more. refl)

if-IsReader :
    {A : Type 0} {m : ℕ} {f g : List ℕ → Reading A} (t : Bool)
    → IsReader m f
    → IsReader m g
    → IsReader m (λ bytes. if t then f bytes else g bytes)
if-IsReader true r s bytes = elim (r bytes) [
  | saves e l ↦ saves e l
  | refuses e g ↦ refuses e g
  | reads a rest e l k g ↦ reads a rest e l k g
]
if-IsReader false r s bytes = elim (s bytes) [
  | saves e l ↦ saves e l
  | refuses e g ↦ refuses e g
  | reads a rest e l k g ↦ reads a rest e l k g
]

read_on-IsReader :
    {A B : Type 0} {m n : ℕ} {f : List ℕ → Reading A} {k : A → List ℕ → Reading B}
    → IsReader m f
    → ((a : A) → IsReader n (k a))
    → IsReader (m + n) (λ bytes. read_on (f bytes) k)
unfolding read_on
read_on-IsReader {A} {B} {m} {n} {f} {k} r s bytes = elim (r bytes) [
  | saves e l ↦ saves (ap (λ t. read_on t k) e) (omega arith)
  | refuses e g ↦ refuses (ap (λ t. read_on t k) e) (λ more. ap (λ t. read_on t k) (g more))
  | reads a rest e l h g ↦ elim (s a rest) [
    | saves e' l' ↦ saves (ap (λ t. read_on t k) e ∙ e') (omega arith)
    | refuses e' g' ↦
        refuses (ap (λ t. read_on t k) e ∙ e') (λ more. ap (λ t. read_on t k) (g more) ∙ g' more)
    | reads b rest' e' l' h' g' ↦
        reads b rest' (ap (λ t. read_on t k) e ∙ e') (omega arith) (omega arith)
          (λ more. ap (λ t. read_on t k) (g more) ∙ g' more)
  ]
]

refuse_within : {A : Type 0} {n : ℕ} → IsReader {A = A} n (λ bytes. refuse)
refuse_within = weaken (omega arith) refuse-IsReader

read_within : {A : Type 0} {n : ℕ} (a : A) → IsReader n (read a)
read_within a = weaken (omega arith) (read-IsReader a)

get_naws_byte-IsReader : IsReader 2 get_naws_byte
unfolding get_naws_byte
get_naws_byte-IsReader = read_on-IsReader get_byte_or_save-IsReader (λ b.
    if-IsReader (b == Code.iac)
      (read_on-IsReader get_byte_or_save-IsReader
        (λ again. if-IsReader (again == Code.iac) (read-IsReader again) refuse-IsReader))
      (read_within b))

get_naws_u16-IsReader : IsReader 4 get_naws_u16_or_save
unfolding get_naws_u16_or_save
get_naws_u16-IsReader =
    read_on-IsReader get_naws_byte-IsReader
      (λ msb. read_on-IsReader get_naws_byte-IsReader (λ lsb. read-IsReader _))

naws-IsReader : IsReader 10 naws
unfolding naws
naws-IsReader = read_on-IsReader get_naws_u16-IsReader (λ col.
    read_on-IsReader get_naws_u16-IsReader (λ row.
      read_on-IsReader get_byte_or_save-IsReader (λ iac.
        read_on-IsReader get_byte_or_save-IsReader (λ se.
          if-IsReader (iac == Code.iac && se == Code.se) (read-IsReader _) refuse-IsReader))))

subnegotiation-IsReader : IsReader 11 subnegotiation
unfolding subnegotiation
subnegotiation-IsReader =
    read_on-IsReader get_byte_or_save-IsReader
      (λ opt. if-IsReader (opt == Code.opt_naws) naws-IsReader refuse_within)

iac_command-IsReader : (followup : ℕ) → IsReader 11 (iac_command followup)
unfolding iac_command
iac_command-IsReader followup =
    if-IsReader (leb Code.nop followup && leb followup Code.go_ahead) (read_within none) (
      if-IsReader (leb Code.will followup && leb followup Code.dont)
        (weaken (omega arith)
          (read_on-IsReader get_byte_or_save-IsReader (λ opt. read-IsReader none)))
        (if-IsReader (followup == Code.iac) (read_within (some (written (Code.iac ∷ []))))
          (if-IsReader (followup == Code.sb) subnegotiation-IsReader refuse_within)))

cr_command-IsReader : (followup : ℕ) → IsReader 11 (cr_command followup)
unfolding cr_command
cr_command-IsReader followup = if-IsReader _ (read_within _) refuse_within

-- A command is saved only while fewer than 12 bytes behind its first one have arrived, takes at
-- most 12, and reads the same when more bytes follow.
pub command-IsReader : (c : ℕ) → IsReader 12 (command c)
unfolding command
command-IsReader c = read_on-IsReader get_byte_or_save-IsReader (λ followup.
    if-IsReader (c == Code.iac) (iac_command-IsReader followup) (cr_command-IsReader followup))
