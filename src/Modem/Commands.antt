-- ===== src/Modem/Commands.antt =====
-- The commands that the bytes of the queue stand for.
use hc.Base.{
  ℕ, zero, suc, ◌+◌, ◌*◌, ◌/◌, ◌%◌, ◌^◌, ◌≡◌, ◌<◌, refl, ap, ap₂, sym, ◌∙◌, arith, Option, some,
  List, [], ◌∷◌, ◌++◌, append_assoc, length, take, take-append, take_all, byte_at, two_pow_add,
}
use hc.Modem.{
  little_endian, load_little_endian, start_sms_cmd, start_sms_end, send_sms_end, queued_text,
  constant_bytes, start_sms_bytes, send_sms_bytes, ack_size, constant_tag, start_sms_tag,
  send_sms_tag,
}

pub data Command : Type 0 where
  constant : ℕ → ℕ → Command
  start_sms : List ℕ → Command
  send_sms : List ℕ → Command

-- The sizes fit their members.
unfoldable pub Fits : Command → Type 0
Fits (constant address size) = (address < 2 ^ 64) × (size < 2 ^ 16)
Fits (start_sms number) = length number < 2 ^ 8
Fits (send_sms sms) = length sms < 2 ^ 16

unfoldable pub encode : Command → List ℕ
encode (constant address size) = constant_bytes address size
encode (start_sms number) = start_sms_bytes number
encode (send_sms sms) = send_sms_bytes sms

unfoldable pub tag_of : Command → ℕ
tag_of (constant address size) = constant_tag
tag_of (start_sms number) = start_sms_tag
tag_of (send_sms sms) = send_sms_tag

length-little_endian : (count v : ℕ) → length (little_endian count v) ≡ count
unfolding little_endian
length-little_endian zero v = refl
length-little_endian (suc count) v = ap suc (length-little_endian count (v / 2 ^ 8))

load_little_endian-little_endian :
    (count v : ℕ) (rest : List ℕ)
    → v < 2 ^ (8 * count)
    → load_little_endian count (little_endian count v ++ rest) ≡ v
unfolding little_endian load_little_endian
load_little_endian-little_endian zero v rest h = omega arith
load_little_endian-little_endian (suc count) v rest h =
    let e : 8 * suc count ≡ 8 * count + 8 = omega arith in
    let p : 2 ^ (8 * suc count) ≡ 2 ^ (8 * count) * 2 ^ 8 =
      ap (λ k. 2 ^ k) e ∙ two_pow_add (8 * count) 8 in
    let high : v / 2 ^ 8 < 2 ^ (8 * count) = omega arith in
    ap (λ k. v % 2 ^ 8 + k * 2 ^ 8) (load_little_endian-little_endian count (v / 2 ^ 8) rest high)
    ∙ omega arith

pub take-length : (xs ys : List ℕ) → take (length xs) (xs ++ ys) ≡ xs
take-length xs ys =
    take-append xs ys (length xs) (omega arith) ∙ take_all xs (length xs) (omega arith)

module _ (string_at : ℕ → ℕ → List ℕ) where
  -- What a command writes to the modem.
  unfoldable pub text_of : Command → List ℕ
  text_of (constant address size) = string_at address size
  text_of (start_sms number) = start_sms_cmd ++ (number ++ start_sms_end)
  text_of (send_sms sms) = sms ++ send_sms_end

  pub queued_text-encode :
      (sys_write : Option ℕ → List (List ℕ) → List ℕ → Option ℕ) (c : Command) (rest : List ℕ)
      → Fits c
      → queued_text string_at sys_write (encode c ++ rest) ≡ some (text_of c)
  unfolding queued_text encode text_of Fits constant_bytes start_sms_bytes send_sms_bytes
  queued_text-encode w (constant address size) rest (a, b) =
      ap₂ (λ x n. some (string_at x n)) (load_little_endian-little_endian 8 address rest a)
        (load_little_endian-little_endian 2 size rest b)
  queued_text-encode w (start_sms number) rest h =
      ap (λ t. some (start_sms_cmd ++ (t ++ start_sms_end))) (take-length number rest)
  queued_text-encode w (send_sms sms) rest h =
      ap (λ n. some (take n (sms ++ rest) ++ send_sms_end))
        (load_little_endian-little_endian 2 (length sms) rest h)
      ∙ ap (λ t. some (t ++ send_sms_end)) (take-length sms rest)

pub byte_at-encode : (c : Command) (rest : List ℕ) → byte_at (encode c ++ rest) 0 ≡ tag_of c
unfolding encode tag_of constant_bytes start_sms_bytes send_sms_bytes
byte_at-encode (constant address size) rest = refl
byte_at-encode (start_sms number) rest = refl
byte_at-encode (send_sms sms) rest = refl

-- An acknowledgement takes the bytes of one command.
pub ack_size-encode :
    (c : Command) (rest : List ℕ)
    → Fits c
    → ack_size (encode c ++ rest) (tag_of c) ≡ some (length (encode c))
unfolding ack_size encode tag_of Fits constant_bytes start_sms_bytes send_sms_bytes little_endian
ack_size-encode (constant address size) rest h = refl
ack_size-encode (start_sms number) rest h = ap some (omega arith)
ack_size-encode (send_sms sms) rest h =
    ap (λ n. some (3 + n)) (load_little_endian-little_endian 2 (length sms) rest h)
    ∙ ap some (omega arith)

unfoldable pub encode_all : List Command → List ℕ
encode_all [] = []
encode_all (c ∷ cs) = encode c ++ encode_all cs

pub encode_all-append :
    (cs ds : List Command) → encode_all (cs ++ ds) ≡ encode_all cs ++ encode_all ds
unfolding encode_all
encode_all-append [] ds = refl
encode_all-append (c ∷ cs) ds =
    ap (λ t. encode c ++ t) (encode_all-append cs ds)
    ∙ sym (append_assoc (encode c) (encode_all cs) (encode_all ds))

unfoldable pub AllFit : List Command → Type 0
AllFit [] = Unit
AllFit (c ∷ cs) = Fits c × AllFit cs

pub AllFit-append : (cs ds : List Command) → AllFit cs → AllFit ds → AllFit (cs ++ ds)
unfolding AllFit
AllFit-append [] ds h k = k
AllFit-append (c ∷ cs) ds (h, hs) k = (h, AllFit-append cs ds hs k)

-- No command is empty.
pub encode_pos : (c : Command) → 0 < length (encode c)
unfolding encode constant_bytes start_sms_bytes send_sms_bytes
encode_pos (constant address size) = omega arith
encode_pos (start_sms number) = omega arith
encode_pos (send_sms sms) = omega arith
