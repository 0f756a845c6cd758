-- ===== src/Wire/Bytes.antt =====
-- src/coordinator/inter_sat_comm.cpp: each reader undoes its writer.
use actuator_final.Prelude.{
  false, ℕ, ◌%◌, ◌^◌, ◌<◌, List, ◌++◌, some, ◌≡◌, refl, ap, arith, ltb, length, length-append,
  take-append, drop-append,
}
use actuator_final.Text.{Text}
use actuator_final.Messages.{Priority, priority_code}
use actuator_final.Wire.{
  byte_of, write_u16, write_u32, write_u64, write_string, read_u8, read_u16, read_u32, read_u64,
  read_bytes, read_string, priority_of,
}

pub read-write_u16 : (x : ℕ) (s : List ℕ) → x < 2 ^ 16 → read_u16 (write_u16 x ++ s) ≡ some (x, s)
unfolding read_u16 write_u16 byte_of
read-write_u16 x s h = ap (λ (n : ℕ). some (n, s)) (omega arith)

pub read-write_u32 : (x : ℕ) (s : List ℕ) → x < 2 ^ 32 → read_u32 (write_u32 x ++ s) ≡ some (x, s)
unfolding read_u32 write_u32 byte_of
read-write_u32 x s h = ap (λ (n : ℕ). some (n, s)) (omega arith)

pub read-write_u64 : (x : ℕ) (s : List ℕ) → x < 2 ^ 64 → read_u64 (write_u64 x ++ s) ≡ some (x, s)
unfolding read_u64 write_u64 byte_of
read-write_u64 x s h = ap (λ (n : ℕ). some (n, s)) (omega arith)

pub read-write_string :
    (t : Text) (s : List ℕ) → length t < 256 → read_string (write_string t ++ s) ≡ some (t, s)
unfolding read_string write_string read_u8 read_bytes
read-write_string t s h =
    let whole : length t % 256 ≡ length t = omega arith in
    let room : ltb (length (t ++ s)) (length t) ≡ false = ground (arith, length-append t s) in
    rw (whole, room, take-append t s, drop-append t s)

pub priority_of-code : (p : Priority) → priority_of (priority_code p) ≡ p
unfolding priority_of priority_code
priority_of-code Priority.low = refl
priority_of-code Priority.normal = refl
priority_of-code Priority.urgent = refl
priority_of-code Priority.emergency = refl
