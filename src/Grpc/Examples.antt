-- ===== src/Grpc/Examples.antt =====
-- Messages in pieces, over a small wire format.
use cronet_go.Base.{
  ◌≡◌, ◌<◌, ℕ, suc, refl, List, [], ◌∷◌, Option, none, some, length, take, arith, deadline_exceeded,
  inl, take_all,
}
use cronet_go.Grpc.{
  Protowire, encode, Reads, Reader, Upload, ReaderRead, read_message, read_context, upload_read,
}
use cronet_go.Grpc.Ending.{read_context_ends}
use cronet_go.Grpc.Uploading.{Conserves, outgoing, upload_read-Conserves}
use cronet_go.Grpc.Resuming.{Partial, Resumes, read_message-Resumes}

-- Lengths of one byte, for fields of number 1 only.
abbrev consume_small_tag : List ℕ → Option (ℕ × ℕ × ℕ)
consume_small_tag [] = none
consume_small_tag (x ∷ xs) = some (1, 2, 1)

abbrev consume_small_bytes : List ℕ → Option (List ℕ × ℕ)
consume_small_bytes [] = none
consume_small_bytes (n ∷ bytes) = some (take n bytes, suc (length (take n bytes)))

small_tag_takes :
    (bytes : List ℕ) (number wire_type n : ℕ)
    → consume_small_tag bytes ≡ some (number, wire_type, n)
    → 0 < n
small_tag_takes [] number wire_type n e = cc e
small_tag_takes (x ∷ xs) number wire_type n e = ground (arith, e)

abbrev small_wire : Protowire
small_wire = record {
  tag = λ number wire_type. 10 ∷ [];
  delimited = λ bytes. length bytes ∷ bytes;
  size_bytes = λ n. suc n;
  consume_tag = consume_small_tag;
  consume_bytes = consume_small_bytes;
  consume_field_value = λ number wire_type bytes. none;
  tag_size = refl;
  delimited_size = λ bytes. refl;
  size_bytes_bound = λ n h. omega arith;
  tag_takes = small_tag_takes;
  consume_tag_lem = λ rest. refl;
  consume_bytes_lem = λ bytes. rw (take_all (length bytes) bytes (omega arith)) refl;
}

-- Two bytes of the header have come, then a deadline, and the rest with the start of the next message.
abbrev halted : Reader
halted = record { header = 0 ∷ 0 ∷ []; frame = []; cache = []; err = none }

abbrev pieces : Reads
pieces =
    (0 ∷ [], none) ∷ ([], some deadline_exceeded) ∷ (0 ∷ 4 ∷ 10 ∷ 2 ∷ 7 ∷ 8 ∷ 0 ∷ [], none) ∷ []

halted-Partial : Partial small_wire (7 ∷ 8 ∷ []) (0 ∷ []) halted pieces
unfolding encode
halted-Partial = record {
  on_wire = refl;
  header_size = omega arith;
  header_first = inl refl;
  frame_size = omega arith;
}

read_message-Resumes_example :
    Resumes small_wire (7 ∷ 8 ∷ []) (0 ∷ []) halted (read_message small_wire halted pieces)
read_message-Resumes_example =
    read_message-Resumes small_wire (7 ∷ 8 ∷ []) (0 ∷ []) (omega arith) halted pieces halted-Partial

abbrev upload : Upload
upload = record { source = (7 ∷ 8 ∷ [], none) ∷ []; pending = []; err = none }

upload_read-Conserves_example :
    Conserves small_wire 4 (outgoing small_wire upload) (upload_read small_wire 4 upload)
upload_read-Conserves_example = upload_read-Conserves small_wire 4 upload

read_context_ends_example :
    (t : ReaderRead) × (read_context small_wire 20 4 none halted pieces ≡ some t)
read_context_ends_example =
    read_context_ends small_wire 20 4 none halted pieces (omega arith) (omega arith)
