-- ===== src/Tar/Record.antt =====
-- hc/core/hc/tar.h and the header of a record in hc/tools/tar/common.c: `writeRecord`, up to the
-- writing of the buffer; and `parseSize` of hc/tools/untar/common.c.
mod Octal
mod Size
mod Tests
use hc.Base.{
  ℕ, zero, suc, ◌+◌, ◌-◌, ◌*◌, ◌/◌, ◌%◌, ◌^◌, ◌==◌, ◌||◌, ltb, if◌then◌else◌, List, [], ◌∷◌, ◌++◌,
  Option, none, some, ℤ, pos, negsuc, length, replicate, byte_at, set, copy_to, get_or, bit_and,
}
use hc.Tar.Prefix.{max_name_len, max_prefix_len}

abbrev pub record_size : ℕ
record_size = 512

abbrev pub offset_name : ℕ
offset_name = 0

abbrev pub offset_mode : ℕ
offset_mode = 100

abbrev pub offset_size : ℕ
offset_size = 124

abbrev pub offset_mtime : ℕ
offset_mtime = 136

abbrev pub offset_chksum : ℕ
offset_chksum = 148

abbrev pub offset_typeflag : ℕ
offset_typeflag = 156

abbrev pub offset_magic : ℕ
offset_magic = 257

abbrev pub offset_version : ℕ
offset_version = 263

abbrev pub offset_prefix : ℕ
offset_prefix = 345

-- 077777777777
abbrev pub max_file_size : ℕ
max_file_size = 8 ^ 11 - 1

abbrev pub octal_table : List ℕ
octal_table = b'0' ∷ b'1' ∷ b'2' ∷ b'3' ∷ b'4' ∷ b'5' ∷ b'6' ∷ b'7' ∷ []

-- The loops that write `count` octal digits of `value`, the last at `last`; in each round `value` is
-- shifted by three bits more.
unfoldable pub put_octal : List ℕ → ℕ → ℕ → ℕ → List ℕ
put_octal mem last zero value = mem
put_octal mem last (suc count) value =
    put_octal (set mem last (get_or octal_table (bit_and value 7) 0)) (last - 1) count
      (value / 2 ^ 3)

-- The sum of `count` bytes from `at` on.
unfoldable pub sum_bytes : List ℕ → ℕ → ℕ → ℕ
sum_bytes mem at zero = 0
sum_bytes mem at (suc count) = byte_at mem at + sum_bytes mem (at + 1) count

-- The name and the prefix, with zero bytes behind each.
unfoldable pub fill_names : List ℕ → List ℕ → List ℕ → List ℕ
unfolding copy_to
fill_names buffer name prefix =
    let named = copy_to buffer offset_name name in
    let cleared =
      copy_to named (offset_name + length name)
        (replicate (offset_prefix - (offset_name + length name)) 0) in
    let prefixed = copy_to cleared offset_prefix prefix in
    copy_to prefixed (offset_prefix + length prefix)
      (replicate (record_size - (offset_prefix + length prefix)) 0)

-- The other fields before the checksum.
unfoldable pub fill_fields : List ℕ → ℕ → ℕ → List ℕ
unfolding copy_to put_octal
fill_fields mem typeflag size =
    let moded = copy_to mem offset_mode (b'0' ∷ b'0' ∷ b'0' ∷ b'0' ∷ b'7' ∷ b'7' ∷ b'7' ∷ []) in
    let sized = put_octal moded (offset_size + 10) 11 size in
    let timed = copy_to sized offset_mtime (replicate 11 b'0') in
    let spaced = copy_to timed offset_chksum (replicate 8 b' ') in
    let flagged = set spaced offset_typeflag typeflag in
    let magic = copy_to flagged offset_magic (b'u' ∷ b's' ∷ b't' ∷ b'a' ∷ b'r' ∷ []) in
    copy_to magic offset_version (b'0' ∷ b'0' ∷ [])

-- The checksum, written over the spaces that it was computed with.
unfoldable pub fill_checksum : List ℕ → List ℕ
unfolding put_octal sum_bytes
fill_checksum mem = put_octal mem (offset_chksum + 6) 7 (sum_bytes mem 0 record_size)

-- The header that `writeRecord` puts at the start of `buffer`, or -1; a negative size is that of a
-- directory.
unfoldable pub write_record : List ℕ → List ℕ → List ℕ → ℤ → Option (List ℕ)
unfolding fill_names fill_fields fill_checksum
write_record buffer prefix name (negsuc n) =
    if ltb max_name_len (length name) || ltb max_prefix_len (length prefix)
    then none
    else some (fill_checksum (fill_fields (fill_names buffer name prefix) b'5' 0))
write_record buffer prefix name (pos size) =
    if ltb max_name_len (length name)
      || ltb max_prefix_len (length prefix)
      || ltb max_file_size size
    then none
    else some (fill_checksum (fill_fields (fill_names buffer name prefix) b'0' size))

-- The loop of `parseSize` at byte `at` with `left` digits to come; `none` is -1.
unfoldable pub parse_octal : List ℕ → ℕ → ℕ → ℕ → Option ℕ
parse_octal buffer at zero size = some size
parse_octal buffer at (suc left) size =
    let digit = (byte_at buffer at + 2 ^ 32 - b'0') % 2 ^ 32 in
    let rest = parse_octal buffer (at + 1) left (size * 2 ^ 3 + digit) in
    if ltb 7 digit then none else rest

unfoldable pub parse_size : List ℕ → Option ℕ
unfolding parse_octal
parse_size buffer = parse_octal buffer offset_size 11 0
