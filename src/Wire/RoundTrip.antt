-- ===== src/Wire/RoundTrip.antt =====
-- src/coordinator/inter_sat_comm.cpp: deserializeMessage undoes MessageSerializer::serialize.
use actuator_final.Prelude.{
  false, ℕ, ◌^◌, ◌<◌, List, ◌++◌, none, some, ◌≡◌, ap, arith, ltb, length, take, length-append,
  take-append, append_assoc, ◌∙◌, if_false,
}
use actuator_final.Messages.{Message}
use actuator_final.Wire.{serialize_header, serialize, read_u8, read_payload, deserialize_message}
use actuator_final.Wire.Bytes.{
  read-write_u16, read-write_u32, read-write_u64, read-write_string, priority_of-code,
}

-- Every field fits its place on the wire, and `payload_size` is the size of the payload.
pub record Fits (m : Message) : Type 0 where
  pub magic : m.header.magic < 2 ^ 32
  pub version : m.header.version < 2 ^ 16
  pub msg_type : m.header.msg_type < 2 ^ 16
  pub sequence_id : m.header.sequence_id < 2 ^ 32
  pub timestamp_ms : m.header.timestamp_ms < 2 ^ 64
  pub source : length m.header.source_node_id < 256
  pub dest : length m.header.dest_node_id < 256
  pub checksum : m.header.checksum < 2 ^ 32
  pub size_bound : m.header.payload_size < 2 ^ 32
  pub size : m.header.payload_size ≡ length m.payload

read_payload-append :
    (m : Message) (rest : List ℕ)
    → m.header.payload_size ≡ length m.payload
    → read_payload m.header (m.payload ++ rest) ≡ some m
unfolding read_payload
read_payload-append m rest e =
    let room : ltb (length (m.payload ++ rest)) m.header.payload_size ≡ false =
      ground (arith, length-append m.payload rest) in
    if_false none _ room
    ∙ ap (λ (p : List ℕ). some (record { header = m.header; payload = p }))
        (ap (λ n. take n (m.payload ++ rest)) e ∙ take-append m.payload rest)

-- A message each of whose fields fits its width on the wire, whose node ids have fewer than 256
-- characters and whose payload_size is the length of its payload, is read back as it was, whatever
-- follows it.
pub deserialize-serialize :
    (m : Message) (rest : List ℕ) → Fits m → deserialize_message (serialize m ++ rest) ≡ some m
unfolding deserialize_message serialize serialize_header read_u8
deserialize-serialize m rest f =
    simp
      (
        append_assoc,
        read-write_u32 m.header.magic _ f.magic,
        read-write_u16 m.header.version _ f.version,
        read-write_u16 m.header.msg_type _ f.msg_type,
        read-write_u32 m.header.sequence_id _ f.sequence_id,
        read-write_u64 m.header.timestamp_ms _ f.timestamp_ms,
        read-write_string m.header.source_node_id _ f.source,
        read-write_string m.header.dest_node_id _ f.dest,
        read-write_u32 m.header.payload_size _ f.size_bound,
        read-write_u32 m.header.checksum _ f.checksum,
        priority_of-code m.header.priority,
      )
      (read_payload-append m rest f.size)
