-- ===== src/Tar/Record/Tests.antt =====
-- A record of 600 bytes in a buffer of older ones.
use hc.Base.{ℕ, ◌≡◌, refl, arith, List, [], ◌∷◌, some, byte_at, replicate, pos, length-replicate}
use hc.Tar.Record.{
  write_record, parse_size, offset_typeflag, fill_names, fill_fields, fill_checksum,
}
use hc.Tar.Record.Size.{parse_size-write_record}

abbrev buffer : List ℕ
buffer = replicate 512 7

abbrev filled : List ℕ
filled = fill_checksum (fill_fields (fill_names buffer (b'a' ∷ []) []) b'0' 600)

parse_size-write_record_example :
    (parse_size filled ≡ some 600) × (byte_at filled offset_typeflag ≡ b'0')
unfolding write_record
parse_size-write_record_example =
    parse_size-write_record buffer [] (b'a' ∷ []) (pos 600)
      (omega (arith, length-replicate {A = ℕ} 512 7)) refl
