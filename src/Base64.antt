-- ===== src/Base64.antt =====
-- hc/core/hc/base64.c: the encoder. Input and output are places in one memory, since the function may
-- be used in place.
mod Bounds
mod Tests
use hc.Base.{
  ℕ, zero, suc, ◌+◌, ◌*◌, ◌/◌, ◌^◌, List, [], ◌∷◌, ◌++◌, bit_and, bit_or, get_or, set, byte_at,
}

-- `count` bytes in a row.
abbrev pub letters : ℕ → ℕ → List ℕ
letters first zero = []
letters first (suc count) = first ∷ letters (suc first) count

-- "ABC...abc...012...+/"
abbrev pub base64_table : List ℕ
base64_table = letters b'A' 26 ++ (letters b'a' 26 ++ (letters b'0' 10 ++ (b'+' ∷ b'/' ∷ [])))

abbrev pub code_of : ℕ → ℕ
code_of v = get_or base64_table v 0

-- `base64_ENCODE_SIZE`
abbrev pub encode_size : ℕ → ℕ
encode_size input_size = (input_size + 2) / 3 * 4

-- One round of the loop: the three bytes are read before the four are written.
pub encode_round : List ℕ → ℕ → ℕ → List ℕ
encode_round mem out inp =
    let input0 = byte_at mem inp in
    let input1 = byte_at mem (inp + 1) in
    let input2 = byte_at mem (inp + 2) in
    let mem0 = set mem out (code_of (input0 / 2 ^ 2)) in
    let mem1 =
      set mem0 (out + 1) (code_of (bit_or (bit_and input0 0x3 * 2 ^ 4) (input1 / 2 ^ 4))) in
    let mem2 =
      set mem1 (out + 2) (code_of (bit_or (bit_and input1 0xF * 2 ^ 2) (input2 / 2 ^ 6))) in
    set mem2 (out + 3) (code_of (bit_and input2 0x3F))

-- What stands behind the loop, for the 0, 1 or 2 bytes that remain. `in[1]` is read after the
-- first byte has been written.
pub encode_rest : List ℕ → ℕ → ℕ → ℕ → List ℕ
encode_rest mem out inp zero = mem
encode_rest mem out inp (suc zero) =
    let input0 = byte_at mem inp in
    let mem0 = set mem out (code_of (input0 / 2 ^ 2)) in
    let mem1 = set mem0 (out + 1) (code_of (bit_and input0 0x3 * 2 ^ 4)) in
    set (set mem1 (out + 2) b'=') (out + 3) b'='
encode_rest mem out inp (suc (suc more)) =
    let input0 = byte_at mem inp in
    let mem0 = set mem out (code_of (input0 / 2 ^ 2)) in
    let input1 = byte_at mem0 (inp + 1) in
    let mem1 =
      set mem0 (out + 1) (code_of (bit_or (bit_and input0 0x3 * 2 ^ 4) (input1 / 2 ^ 4))) in
    let mem2 = set mem1 (out + 2) (code_of (bit_and input1 0xF * 2 ^ 2)) in set mem2 (out + 3) b'='

-- `base64_encode(&mem[out], &mem[inp], inSize)`.
pub base64_encode : List ℕ → ℕ → ℕ → ℕ → List ℕ
unfolding encode_round encode_rest
base64_encode mem out inp (suc (suc (suc in_size))) =
    base64_encode (encode_round mem out inp) (out + 4) (inp + 3) in_size
base64_encode mem out inp remaining = encode_rest mem out inp remaining
