-- ===== src/Serial/Runs.antt =====
-- Runs of the writer and the readers, and their theorem at a concrete input.
use cryptopeg.Prelude.{ltb, ◌≡◌, refl, arith, [], ◌∷◌}
use cryptopeg.Errors.{Error, ok, err}
use cryptopeg.Serial
use cryptopeg.Serial.Cursor.{
  ByteReader, require_remaining, read_le, next_byte, read_u8, read_u32, read_u64, read_bytes,
  read_string, remaining, unread, Agree,
}
use cryptopeg.Serial.Cursor.Refine.{methods_refine}
use cryptopeg.Quorum.{lex_lt}
use cryptopeg.Serial.Format.{u64_bytes}
use cryptopeg.Serial.BigEndian.{to_big_endian_64, from_big_endian_64, to_big_endian_64_lem}

-- A string of 2 bytes behind a byte that is read already.
abbrev reader : ByteReader
reader = record { bytes = 9 ∷ 2 ∷ 0 ∷ 0 ∷ 0 ∷ 104 ∷ 105 ∷ []; cursor = 1 }

write_string_run : Serial.write_string (9 ∷ []) (104 ∷ 105 ∷ []) ≡ ok reader.bytes
unfolding Serial.write_string Serial.write_bytes Serial.write_u32 Serial.write_le
write_string_run = refl

read_string_run : read_string reader ≡ ok (104 ∷ 105 ∷ [], record reader { cursor = 7 })
unfolding read_string read_u32 require_remaining read_le next_byte read_bytes
read_string_run = refl

read_u64_run : read_u64 reader ≡ err Error.read_past_end
unfolding read_u64 require_remaining
read_u64_run = refl

methods_refine_example :
    Agree (read_u8 reader) (Serial.read_u8 (unread reader))
    × Agree (read_u32 reader) (Serial.read_u32 (unread reader))
    × Agree (read_u64 reader) (Serial.read_u64 (unread reader))
    × Agree (read_bytes 3 reader) (Serial.read_bytes 3 (unread reader))
    × Agree (read_string reader) (Serial.read_string (unread reader))
    × Agree (remaining reader) (Serial.remaining (unread reader))
methods_refine_example = methods_refine reader 3 (omega arith)

key_run : to_big_endian_64 258 ≡ 144_396_663_052_566_528
unfolding to_big_endian_64
key_run = refl

to_big_endian_64_lem_example :
    (lex_lt (u64_bytes (to_big_endian_64 255)) (u64_bytes (to_big_endian_64 256)) ≡ ltb 255 256)
    × (from_big_endian_64 (to_big_endian_64 255) ≡ 255)
to_big_endian_64_lem_example = to_big_endian_64_lem 255 256 (omega arith) (omega arith)
