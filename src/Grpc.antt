-- ===== src/Grpc.antt =====
-- browser_xhttp_grpc.go: the messages of a gRPC tunnel, as an upload encodes them and as a reader that
-- may be stopped by a deadline at any byte decodes them.
pub mod Filling
pub mod Messages
pub mod Resuming
pub mod Uploading
pub mod Ending
mod Examples
use cronet_go.Base.{
  ℕ, zero, suc, ◌+◌, ◌-◌, ◌*◌, ◌/◌, ◌%◌, ◌^◌, ◌≡◌, ◌≤◌, ◌<◌, List, [], ◌∷◌, ◌++◌, Option, none,
  some, Bool, true, false, if◌then◌else◌, ◌&&◌, ◌==◌, ltb, leb, length, take, drop, Error, eof,
  unexpected_eof, no_progress, canceled, deadline_exceeded, failure, closed_pipe,
}

-- google.golang.org/protobuf/encoding/protowire, as far as this code uses it: what AppendTag and
-- AppendBytes append, SizeBytes, and the Consume functions with the number of bytes they consumed, or
-- `none` where they return a negative number. A tag that is consumed takes a byte at least.
pub record Protowire : Type 0 where
  pub tag : ℕ → ℕ → List ℕ
  pub delimited : List ℕ → List ℕ
  pub size_bytes : ℕ → ℕ
  pub consume_tag : List ℕ → Option (ℕ × ℕ × ℕ)
  pub consume_bytes : List ℕ → Option (List ℕ × ℕ)
  pub consume_field_value : ℕ → ℕ → List ℕ → Option ℕ
  pub tag_size : length (tag 1 2) ≡ 1
  pub delimited_size : (bytes : List ℕ) → length (delimited bytes) ≡ size_bytes (length bytes)
  pub size_bytes_bound : (n : ℕ) → n ≤ 32768 → size_bytes n ≤ n + 10
  pub consume_tag_lem :
      (rest : List ℕ) → consume_tag (tag 1 2 ++ rest) ≡ some (1, 2, length (tag 1 2))
  pub tag_takes :
      (bytes : List ℕ) (number wire_type n : ℕ)
      → consume_tag bytes ≡ some (number, wire_type, n)
      → 0 < n
  pub consume_bytes_lem :
      (bytes : List ℕ) → consume_bytes (delimited bytes) ≡ some (bytes, length (delimited bytes))

-- binary.BigEndian.PutUint32 and Uint32.
abbrev pub put_uint32 : ℕ → List ℕ
put_uint32 n = n / 16777216 % 256 ∷ n / 65536 % 256 ∷ n / 256 % 256 ∷ n % 256 ∷ []

abbrev pub uint32 : ℕ → ℕ → ℕ → ℕ → ℕ
uint32 a b c d = a * 16777216 + b * 65536 + c * 256 + d

abbrev pub streaming_read_buffer_size : ℕ
streaming_read_buffer_size = 32768

abbrev pub browser_max_grpc_message : ℕ
browser_max_grpc_message = 4194304

abbrev pub compressed_message : Error
compressed_message = failure 21

abbrev pub message_too_large : Error
message_too_large = failure 22

abbrev pub invalid_protobuf : Error
invalid_protobuf = failure 23

-- What the calls of an io.Reader give, one after the other: bytes and an error at once, if any. After
-- the last one is the end.
abbrev pub Reads : Type 0
Reads = List (List ℕ × Option Error)

abbrev pub arriving : Reads → List ℕ
arriving [] = []
arriving ((bytes, e) ∷ rs) = bytes ++ arriving rs

-- What the field loop of readMessage comes to, or that its fuel ran out.
pub data Fields : Type 0 where
  decoded : List ℕ → Fields
  malformed unfinished : Fields

module _ (proto : Protowire) where
  open proto use {tag, delimited, size_bytes, consume_tag, consume_bytes, consume_field_value}

  -- The frame of one message, with the 32 bits of its size.
  unfoldable pub encode : List ℕ → List ℕ
  encode bytes =
      0 ∷ put_uint32 ((1 + size_bytes (length bytes)) % 2 ^ 32) ++ (tag 1 2 ++ delimited bytes)

  -- The field loop of readMessage, with the number of bytes as fuel: a tag takes one byte at least.
  unfoldable pub consume_fields : ℕ → List ℕ → List ℕ → Fields
  consume_fields fuel cache [] = decoded cache
  consume_fields zero cache (x ∷ message) = unfinished
  consume_fields (suc fuel) cache (x ∷ message) = elim (consume_tag (x ∷ message)) [
    | none ↦ malformed
    | some (number, wire_type, n) ↦
        let value = drop n (x ∷ message) in
        if number == 1 && wire_type == 2
        then elim (consume_bytes value) [
          | none ↦ malformed
          | some (bytes, k) ↦ consume_fields fuel bytes (drop k value)
        ]
        else elim (consume_field_value number wire_type value) [
          | none ↦ malformed
          | some k ↦ consume_fields fuel cache (drop k value)
        ]
  ]

pub record Upload : Type 0 where
  pub source : Reads
  pub pending : List ℕ
  pub err : Option Error

pub record UploadRead : Type 0 where
  pub bytes : List ℕ
  pub error : Option Error
  pub upload : Upload

-- source.Read: the next result, or the end.
abbrev pub next_read : Reads → (List ℕ × Option Error) × Reads
next_read [] = (([], some eof), [])
next_read (r ∷ rs) = (r, rs)

abbrev hand_out : ℕ → Upload → UploadRead
hand_out n u = record {
  bytes = take n u.pending;
  error = none;
  upload = record u { pending = drop n u.pending };
}

-- The bytes that came with an error are encoded first, and the error is for the next read.
unfoldable pub refill : Protowire → ℕ → (List ℕ × Option Error) × Reads → UploadRead
refill proto n (([], e), rs) = record {
  bytes = [];
  error = e;
  upload = record { source = rs; pending = []; err = e };
}
refill proto n ((x ∷ bytes, e), rs) =
    hand_out n (record { source = rs; pending = encode proto (x ∷ bytes); err = e })

-- browserGRPCUpload.Read into a slice of n bytes.
unfoldable pub upload_read : Protowire → ℕ → Upload → UploadRead
unfolding refill
upload_read proto zero u = record { bytes = []; error = none; upload = u }
upload_read proto (suc n) u = elim u.pending [
  | x ∷ xs ↦ hand_out (suc n) u
  | [] ↦ elim u.err [
    | some e ↦ record { bytes = []; error = some e; upload = u }
    | none ↦ refill proto (suc n) (next_read u.source)
  ]
]

-- The bytes of the header and of the message that have come so far, and those still to be handed out.
pub record Reader : Type 0 where
  pub header : List ℕ
  pub frame : List ℕ
  pub cache : List ℕ
  pub err : Option Error

pub record Filled : Type 0 where
  pub have : List ℕ
  pub error : Option Error
  pub rest : Reads

-- fill up to `want` bytes. A read gives no more than the slice takes, and keeps the rest for the next.
unfoldable pub fill : ℕ → List ℕ → Reads → Filled
fill want have [] = record {
  have = have;
  error = if length have == want then none else some eof;
  rest = [];
}
fill want have ((bytes, e) ∷ rs) =
    let more = fill want (have ++ bytes) rs in
    if length have == want
    then record { have = have; error = none; rest = (bytes, e) ∷ rs }
    else if ltb (want - length have) (length bytes)
    then record {
      have = have ++ take (want - length have) bytes;
      error = none;
      rest = (drop (want - length have) bytes, e) ∷ rs;
    }
    else if length have + length bytes == want
    then record { have = have ++ bytes; error = none; rest = rs }
    else elim e [
      | some x ↦ record { have = have ++ bytes; error = some x; rest = rs }
      | none ↦
          if length bytes == 0
          then record { have = have; error = some no_progress; rest = rs }
          else more
    ]

-- `finished` tells whether the call returns: the field loop is no endless one.
pub record MessageRead : Type 0 where
  pub finished : Bool
  pub reader : Reader
  pub error : Option Error
  pub rest : Reads

-- An end inside a header, or anywhere in a message, is unexpected.
abbrev pub inside : List ℕ → Error → Error
inside [] e = e
inside (x ∷ xs) eof = unexpected_eof
inside (x ∷ xs) e = e

abbrev pub inside_message : Error → Error
inside_message eof = unexpected_eof
inside_message e = e

-- The end of readMessage.
unfoldable pub decode : Protowire → Reader → Reads → MessageRead
decode proto r rs = elim (consume_fields proto (length r.frame) [] r.frame) [
  | unfinished ↦ record { finished = false; reader = r; error = none; rest = rs }
  | malformed ↦ record { finished = true; reader = r; error = some invalid_protobuf; rest = rs }
  | decoded bytes ↦ record {
    finished = true;
    reader = record r { header = []; frame = []; cache = bytes };
    error = none;
    rest = rs;
  }
]

unfoldable pub read_body : Protowire → ℕ → Reader → Reads → MessageRead
read_body proto size r rs =
    let f = fill size r.frame rs in
    let r' = record r { frame = f.have } in
    elim f.error [
      | some e ↦ record {
        finished = true;
        reader = r';
        error = some (inside_message e);
        rest = f.rest;
      }
      | none ↦ decode proto r' f.rest
    ]

unfoldable pub read_sized : Protowire → List ℕ → Reader → Reads → MessageRead
read_sized proto (flag ∷ a ∷ b ∷ c ∷ d ∷ more) r rs =
    if flag == 0
    then if ltb browser_max_grpc_message (uint32 a b c d)
      then record { finished = true; reader = r; error = some message_too_large; rest = rs }
      else read_body proto (uint32 a b c d) r rs
    else record { finished = true; reader = r; error = some compressed_message; rest = rs }
read_sized proto short r rs = record {
  finished = true;
  reader = r;
  error = some compressed_message;
  rest = rs;
}

-- readMessage.
unfoldable pub read_message : Protowire → Reader → Reads → MessageRead
read_message proto r rs =
    let f = fill 5 r.header rs in
    let r' = record r { header = f.have } in
    elim f.error [
      | some e ↦ record {
        finished = true;
        reader = r';
        error = some (inside f.have e);
        rest = f.rest;
      }
      | none ↦ read_sized proto f.have r' f.rest
    ]

abbrev pub is_interrupt : Error → Bool
is_interrupt canceled = true
is_interrupt deadline_exceeded = true
is_interrupt e = false

pub record ReaderRead : Type 0 where
  pub reader : Reader
  pub bytes : List ℕ
  pub error : Option Error
  pub rest : Reads

abbrev from_cache : ℕ → Reader → Reads → ReaderRead
from_cache n r rs = record {
  reader = record r { cache = drop n r.cache };
  bytes = take n r.cache;
  error = none;
  rest = rs;
}

abbrev pub failed_read : Error → Reader → Reads → ReaderRead
failed_read e r rs = record { reader = r; bytes = []; error = some e; rest = rs }

-- The loop of readContext, with a bound on the messages that it reads; it does not return from a
-- readMessage that does not. An error that a deadline or a
-- cancel may have made is not kept.
unfoldable pub read_loop : Protowire → ℕ → ℕ → Reader → Reads → Option ReaderRead
read_loop proto zero n r rs = elim r.cache [ x ∷ xs ↦ some (from_cache n r rs) | [] ↦ none ]
read_loop proto (suc fuel) n r rs =
    let m = read_message proto r rs in
    let next = read_loop proto fuel n m.reader m.rest in
    elim r.cache [
      | x ∷ xs ↦ some (from_cache n r rs)
      | [] ↦
          if m.finished
          then elim m.error [
            | none ↦ next
            | some e ↦ some (
                failed_read e
                  (if is_interrupt e then m.reader else record (m.reader) { err = some e }) m.rest)
          ]
          else none
    ]

-- readContext for a slice of n bytes; `ctx` is what ctx.Err() gives.
unfoldable pub read_context : Protowire → ℕ → ℕ → Option Error → Reader → Reads → Option ReaderRead
unfolding read_loop
read_context proto fuel zero ctx r rs =
    some (record { reader = r; bytes = []; error = none; rest = rs })
read_context proto fuel (suc n) ctx r rs = elim r.err [
  | some e ↦ some (failed_read e r rs)
  | none ↦ elim ctx [
    | some e ↦ some (failed_read e r rs)
    | none ↦ read_loop proto fuel (suc n) r rs
  ]
]

-- release.
unfoldable pub release : Reader → Reader
release r = record r {
  frame = [];
  cache = [];
  err = elim r.err [ none ↦ some closed_pipe | some e ↦ some e ];
}
