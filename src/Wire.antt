-- ===== src/Wire.antt =====
-- src/coordinator/inter_sat_comm.cpp: the binary form of a message. Bytes are numbers below 256; the
-- position `pos` into the data is the suffix that starts there. `x >> 8 * k & 0xFF` is a quotient and
-- a remainder, and the bytes of a word do not overlap, so `|` adds.
pub mod Bytes
pub mod RoundTrip
pub mod Frame
use Prim.Native.Nat.{ℕ, zero, suc}
use actuator_final.Prelude.{
  ◌+◌, ◌*◌, ◌/◌, ◌%◌, ◌^◌, Bool, true, false, List, [], ◌∷◌, ◌++◌, Option, none, some, leb, ltb,
  if◌then◌else◌, length, take, drop, ◌==◌,
}
use actuator_final.Text.{Text}
use actuator_final.Messages.{Message, MessageHeader, Priority, priority_code, MessageType}

-- (x >> 8 * k) & 0xFF
unfoldable pub byte_of : ℕ → ℕ → ℕ
byte_of x k = x / 2 ^ (8 * k) % 256

unfoldable pub write_u16 : ℕ → List ℕ
write_u16 x = byte_of x 1 ∷ byte_of x 0 ∷ []

unfoldable pub write_u32 : ℕ → List ℕ
write_u32 x = byte_of x 3 ∷ byte_of x 2 ∷ byte_of x 1 ∷ byte_of x 0 ∷ []

unfoldable pub write_u64 : ℕ → List ℕ
write_u64 x =
    byte_of x 7
    ∷ byte_of x 6
    ∷ byte_of x 5
    ∷ byte_of x 4
    ∷ byte_of x 3
    ∷ byte_of x 2
    ∷ byte_of x 1
    ∷ byte_of x 0
    ∷ []

-- A length in one byte, static_cast<uint8_t>, and the characters.
unfoldable pub write_string : Text → List ℕ
write_string s = (length s % 256) ∷ s

-- serializeHeaderLocal
unfoldable pub serialize_header : MessageHeader → List ℕ
serialize_header h =
    write_u32 h.magic
    ++ (write_u16 h.version
        ++ (write_u16 h.msg_type
            ++ (write_u32 h.sequence_id
                ++ (write_u64 h.timestamp_ms
                    ++ (write_string h.source_node_id
                        ++ (write_string h.dest_node_id
                            ++ (priority_code h.priority
                                ∷ (write_u32 h.payload_size ++ write_u32 h.checksum))))))))

-- MessageSerializer::serialize
unfoldable pub serialize : Message → List ℕ
serialize m = serialize_header m.header ++ m.payload

-- What was read, and what follows it; `none` where the code returns false.
abbrev pub Read : Type 0 → Type 0
Read A = Option (A × List ℕ)

infixl 5 ◌>>=◌
abbrev pub ◌>>=◌ : {A B : Type 0} → Option A → (A → Option B) → Option B
none >>= f = none
some a >>= f = f a

unfoldable pub read_u8 : List ℕ → Read ℕ
read_u8 (a ∷ s) = some (a, s)
read_u8 [] = none

unfoldable pub read_u16 : List ℕ → Read ℕ
read_u16 (a ∷ b ∷ s) = some (a * 256 + b, s)
read_u16 _ = none

unfoldable pub read_u32 : List ℕ → Read ℕ
read_u32 (a ∷ b ∷ c ∷ d ∷ s) = some (a * 2 ^ 24 + b * 2 ^ 16 + c * 256 + d, s)
read_u32 _ = none

unfoldable pub read_u64 : List ℕ → Read ℕ
read_u64 (a ∷ b ∷ c ∷ d ∷ e ∷ f ∷ g ∷ h ∷ s) =
    some
      (a * 2 ^ 56 + b * 2 ^ 48 + c * 2 ^ 40 + d * 2 ^ 32 + e * 2 ^ 24 + f * 2 ^ 16 + g * 256 + h, s)
read_u64 _ = none

-- readString
unfoldable pub read_bytes : ℕ → List ℕ → Read Text
read_bytes n s = if ltb (length s) n then none else some (take n s, drop n s)

unfoldable pub read_string : List ℕ → Read Text
read_string s = do (n, rest) ← read_u8 s; read_bytes n rest

unfoldable pub priority_of : ℕ → Priority
priority_of raw =
    if raw == 1
    then Priority.emergency
    else if raw == 2
    then Priority.urgent
    else if raw == 4
    then Priority.low
    else Priority.normal

-- The payload: as many bytes as the header says, if they are there; bytes behind them are ignored.
unfoldable pub read_payload : MessageHeader → List ℕ → Option Message
read_payload h s =
    if ltb (length s) h.payload_size
    then none
    else some (record { header = h; payload = take h.payload_size s })

-- deserializeMessage
unfoldable pub deserialize_message : List ℕ → Option Message
deserialize_message bytes = do
  (magic, s) ← read_u32 bytes
  (version, s) ← read_u16 s
  (msg_type, s) ← read_u16 s
  (sequence_id, s) ← read_u32 s
  (timestamp_ms, s) ← read_u64 s
  (source, s) ← read_string s
  (dest, s) ← read_string s
  (raw, s) ← read_u8 s
  (payload_size, s) ← read_u32 s
  (checksum, s) ← read_u32 s
  read_payload
      (record {
        magic = magic;
        version = version;
        msg_type = msg_type;
        sequence_id = sequence_id;
        timestamp_ms = timestamp_ms;
        source_node_id = source;
        dest_node_id = dest;
        priority = priority_of raw;
        payload_size = payload_size;
        checksum = checksum;
      })
      s
