-- ===== src/Tar/Record/Size.antt =====
-- untar reads the size and the kind that tar writes.
use hc.Base.{
  copy_to, length-copy_to, byte_at-copy_to_outside, ℕ, ◌+◌, ◌-◌, ◌%◌, ◌≤◌, ◌<◌, ◌≡◌, inl, inr, refl,
  ◌∙◌, sym, ap, arith, List, [], ◌∷◌, some, ℤ, pos, negsuc, length, byte_at, set, ltb, ◌||◌,
  replicate, byte_at-set_ne, byte_at-set_self, Bool, false, Bool-cases,
}
use hc.Tar.Prefix.{max_name_len, max_prefix_len}
use hc.Tar.Record.{
  record_size, offset_mtime, offset_chksum, offset_typeflag, offset_magic, offset_version,
  max_file_size, put_octal, sum_bytes, fill_names, fill_fields, fill_checksum, write_record,
  parse_size,
}
use hc.Tar.Record.Octal.{
  shifted, length-put_octal, byte_at-put_octal_outside, byte_at-put_octal, parse_octal_lem,
}

length-fill_names :
    (buffer name prefix : List ℕ) → length (fill_names buffer name prefix) ≡ length buffer
unfolding fill_names
length-fill_names buffer name prefix = simp length-copy_to refl

-- The fields behind the size, each over the memory before it.
abbrev zeros_and_spaces : List ℕ → List ℕ
unfolding copy_to
zeros_and_spaces sized =
    copy_to (copy_to sized offset_mtime (replicate 11 b'0')) offset_chksum (replicate 8 b' ')

abbrev ustar : List ℕ → List ℕ
unfolding copy_to
ustar flagged =
    copy_to (copy_to flagged offset_magic (b'u' ∷ b's' ∷ b't' ∷ b'a' ∷ b'r' ∷ [])) offset_version
      (b'0' ∷ b'0' ∷ [])

byte_at-zeros_and_spaces :
    (mem : List ℕ) (i : ℕ) → i < 136 → byte_at (zeros_and_spaces mem) i ≡ byte_at mem i
unfolding zeros_and_spaces
byte_at-zeros_and_spaces mem i h =
    byte_at-copy_to_outside (copy_to mem 136 (replicate 11 48)) 148 (replicate 8 32) i
      (inl (omega arith))
    ∙ byte_at-copy_to_outside mem 136 (replicate 11 48) i (inl (omega arith))

byte_at-ustar : (mem : List ℕ) (i : ℕ) → i < 257 → byte_at (ustar mem) i ≡ byte_at mem i
unfolding ustar
byte_at-ustar mem i h =
    byte_at-copy_to_outside (copy_to mem 257 (117 ∷ 115 ∷ 116 ∷ 97 ∷ 114 ∷ [])) 263 (48 ∷ 48 ∷ []) i
      (inl (omega arith))
    ∙ byte_at-copy_to_outside mem 257 (117 ∷ 115 ∷ 116 ∷ 97 ∷ 114 ∷ []) i (inl (omega arith))

module _ (mem : List ℕ) (typeflag size : ℕ) (room : record_size ≤ length mem) where
  sized : List ℕ
  sized = put_octal (copy_to mem 100 (48 ∷ 48 ∷ 48 ∷ 48 ∷ 55 ∷ 55 ∷ 55 ∷ [])) 134 11 size

  spaced : List ℕ
  spaced = zeros_and_spaces sized

  fields : List ℕ
  fields = ustar (set spaced 156 typeflag)

  header : List ℕ
  header = put_octal fields 154 7 (sum_bytes fields 0 512)

  fill_fields-header : fill_checksum (fill_fields mem typeflag size) ≡ header
  unfolding fill_checksum fill_fields header fields spaced sized zeros_and_spaces ustar
  fill_fields-header = refl

  length-spaced : length spaced ≡ length mem
  unfolding spaced sized zeros_and_spaces
  length-spaced = simp (length-copy_to, length-put_octal) refl

  -- The digits of the size survive what is written behind them.
  byte_at-header_size : (j : ℕ) → j < 11 → byte_at header (134 - j) ≡ 48 + shifted size j % 8
  unfolding header fields spaced sized
  byte_at-header_size j h =
      byte_at-put_octal_outside 7 154 (sum_bytes fields 0 512) (134 - j) fields (omega arith)
        (inr (omega arith))
      ∙ byte_at-ustar (set spaced 156 typeflag) (134 - j) (omega arith)
      ∙ byte_at-set_ne spaced 156 (134 - j) typeflag (λ e. omega arith)
      ∙ byte_at-zeros_and_spaces sized (134 - j) (omega arith)
      ∙ byte_at-put_octal 11 134 size j (copy_to mem 100 (48 ∷ 48 ∷ 48 ∷ 48 ∷ 55 ∷ 55 ∷ 55 ∷ [])) h
          (omega arith)
          (omega (arith, length-copy_to mem 100 (48 ∷ 48 ∷ 48 ∷ 48 ∷ 55 ∷ 55 ∷ 55 ∷ [])))

  byte_at-header_typeflag : byte_at header 156 ≡ typeflag
  unfolding header fields
  byte_at-header_typeflag =
      byte_at-put_octal_outside 7 154 (sum_bytes fields 0 512) 156 fields (omega arith)
        (inl (omega arith))
      ∙ byte_at-ustar (set spaced 156 typeflag) 156 (omega arith)
      ∙ byte_at-set_self spaced 156 typeflag (omega (arith, length-spaced))

  parse_size-header : size ≤ max_file_size → parse_size header ≡ some size
  unfolding parse_size
  parse_size-header h =
      parse_octal_lem 11 size 124 0 header (omega arith)
        (λ j l. ap (byte_at header) (omega arith) ∙ byte_at-header_size j l)

written_size :
    (mem : List ℕ) (typeflag size : ℕ) {filled : List ℕ}
    → record_size ≤ length mem
    → size ≤ max_file_size
    → some (fill_checksum (fill_fields mem typeflag size)) ≡ some filled
    → (parse_size filled ≡ some size) × (byte_at filled offset_typeflag ≡ typeflag)
written_size mem typeflag size {filled} room le h =
    let p : fill_checksum (fill_fields mem typeflag size) ≡ filled = cc h in
    let q : header mem typeflag size room ≡ filled =
      sym (fill_fields-header mem typeflag size room) ∙ p in
    (
      ap parse_size (sym q) ∙ parse_size-header mem typeflag size room le,
      ap (λ m. byte_at m 156) (sym q) ∙ byte_at-header_typeflag mem typeflag size room,
    )

-- What untar takes a size for.
abbrev pub file_size : ℤ → ℕ
file_size (pos size) = size
file_size (negsuc n) = 0

-- The kind of the record, as in its `typeflag`.
abbrev pub kind_of : ℤ → ℕ
kind_of (pos size) = b'0'
kind_of (negsuc n) = b'5'

-- If `writeRecord` fills in a header in a buffer that has room for one, then untar's `parseSize`
-- reads the size of the file from it, 0 for a directory, and its type flag says which of the two it
-- is, whatever stood in the buffer before.
pub parse_size-write_record :
    (buffer prefix name : List ℕ) (size : ℤ) {filled : List ℕ}
    → record_size ≤ length buffer
    → write_record buffer prefix name size ≡ some filled
    → (parse_size filled ≡ some (file_size size)) × (byte_at filled offset_typeflag ≡ kind_of size)
unfolding write_record
parse_size-write_record buffer prefix name (pos size) {filled} room h =
    elim (Bool-cases (
      ltb max_name_len (length name)
      || ltb max_prefix_len (length prefix)
      || ltb max_file_size size)) [
        | inl long ↦ cc (rw (long, write_record) at h)
        | inr fits ↦
            written_size (fill_names buffer name prefix) 48 size
              (omega (arith, length-fill_names buffer name prefix))
              (small (ltb max_name_len (length name)) (ltb max_prefix_len (length prefix)) fits)
              (rw (fits, write_record) at h)
      ]
  where
    small : (a b : Bool) → (a || b || ltb max_file_size size) ≡ false → size ≤ max_file_size
    small a b e = ground arith
parse_size-write_record buffer prefix name (negsuc n) {filled} room h =
    elim (Bool-cases (ltb max_name_len (length name) || ltb max_prefix_len (length prefix))) [
      | inl long ↦ cc (rw (long, write_record) at h)
      | inr fits ↦
          written_size (fill_names buffer name prefix) 53 0
            (omega (arith, length-fill_names buffer name prefix)) (omega arith)
            (rw (fits, write_record) at h)
    ]
