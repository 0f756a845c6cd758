-- ===== src/Examples/Frames.antt =====
-- src/coordinator/inter_sat_comm.cpp: one message on the wire, and a frame that arrives in pieces.
use actuator_final.Prelude.{[], ◌∷◌, ◌++◌, some, ◌≡◌, refl, arith}
use actuator_final.Text.{codes}
use actuator_final.Messages.{Message, Priority, magic_number, protocol_version, task_complete_type}
use actuator_final.Wire.{serialize, deserialize_message, write_u32, byte_of}
use actuator_final.Wire.RoundTrip.{Fits, deserialize-serialize}
use actuator_final.Wire.Frame.{Pieces, frame, flatten, receive_data, receive_data-frame}

abbrev completed : Message
completed = record {
  header = record {
    magic = magic_number;
    version = protocol_version;
    msg_type = task_complete_type;
    sequence_id = 70000;
    timestamp_ms = 5000000000;
    source_node_id = codes "SAT";
    dest_node_id = codes "COORDINATOR";
    priority = Priority.urgent;
    payload_size = 2;
    checksum = 0;
  };
  payload = codes "{}";
}

completed-Fits : Fits completed
completed-Fits = record {
  magic = omega arith;
  version = omega arith;
  msg_type = omega arith;
  sequence_id = omega arith;
  timestamp_ms = omega arith;
  source = omega arith;
  dest = omega arith;
  checksum = omega arith;
  size_bound = omega arith;
  size = refl;
}

deserialize-serialize_example :
    deserialize_message (serialize completed ++ codes "rest") ≡ some completed
deserialize-serialize_example = deserialize-serialize completed (codes "rest") completed-Fits

-- The header is cut in two, and the second piece of the body carries the start of the next frame.
abbrev arriving : Pieces
arriving = (0 ∷ 0 ∷ []) ∷ (0 ∷ 3 ∷ 65 ∷ []) ∷ (66 ∷ 67 ∷ 0 ∷ []) ∷ []

abc_frame : frame (codes "ABC") ≡ some (0 ∷ 0 ∷ 0 ∷ 3 ∷ codes "ABC")
unfolding frame write_u32 byte_of
abc_frame = refl

arrives : flatten arriving ≡ (0 ∷ 0 ∷ 0 ∷ 3 ∷ codes "ABC") ++ 0 ∷ []
unfolding flatten
arrives = refl

receive_data-frame_example :
    (left : Pieces) × (receive_data arriving ≡ some (codes "ABC", left)) × (flatten left ≡ 0 ∷ [])
receive_data-frame_example =
    receive_data-frame (codes "ABC") (0 ∷ 0 ∷ 0 ∷ 3 ∷ codes "ABC") (0 ∷ []) arriving abc_frame
      (omega arith, (omega arith, (omega arith, tt))) arrives
