-- ===== src/Base/Stream.antt =====
-- Byte streams of the standard library: an io.Reader as the arrivals that its reads meet, io.ReadFull
-- over it, and an io.Writer as the bytes it took with the outcomes of its writes still to come.
use Prim.Native.Nat.{ℕ, zero, suc, ◌+◌, ◌-◌}
use mathlib.Core.List.{List, [], ◌∷◌, ◌++◌}
use mathlib.Core.Option.{Option, none, some}
use cronet_go.Base.Tests.{leb, if◌then◌else◌}
use cronet_go.Base.Lists.{length, take, drop}
use cronet_go.Base.Outcome.{Error, eof, unexpected_eof}

-- What the next reads meet: bytes that came together, or an error. After the last one is the end.
pub data Arrival : Type 0 where
  chunk : List ℕ → Arrival
  fault : Error → Arrival

abbrev pub Source : Type 0
Source = List Arrival

-- The count, the error and the reader after a read. A read that fails returns no bytes.
pub record Got : Type 0 where
  pub bytes : List ℕ
  pub error : Option Error
  pub source : Source

-- reader.Read(buffer) with len(buffer) = n.
unfoldable pub read : ℕ → Source → Got
read zero s = record { bytes = []; error = none; source = s }
read (suc n) [] = record { bytes = []; error = some eof; source = [] }
read (suc n) (fault e ∷ s) = record { bytes = []; error = some e; source = s }
read (suc n) (chunk c ∷ s) =
    if leb (length c) (suc n)
    then record { bytes = c; error = none; source = s }
    else record { bytes = take (suc n) c; error = none; source = chunk (drop (suc n) c) ∷ s }

-- An end of the stream inside what ReadFull was asked for is unexpected.
abbrev pub short : List ℕ → Error → Error
short [] e = e
short (x ∷ xs) eof = unexpected_eof
short (x ∷ xs) e = e

-- io.ReadFull for n more bytes behind those already read.
unfoldable pub read_full : Source → ℕ → List ℕ → Got
read_full s zero got = record { bytes = got; error = none; source = s }
read_full [] (suc n) got = record { bytes = got; error = some (short got eof); source = [] }
read_full (fault e ∷ s) (suc n) got = record { bytes = got; error = some (short got e); source = s }
read_full (chunk c ∷ s) (suc n) got =
    if leb (length c) (suc n)
    then read_full s (suc n - length c) (got ++ c)
    else record { bytes = got ++ take (suc n) c; error = none; source = chunk (drop (suc n) c) ∷ s }

-- The bytes still to come, if no read fails before the end.
abbrev pub wire : Source → List ℕ
wire [] = []
wire (chunk c ∷ s) = c ++ wire s
wire (fault e ∷ s) = wire s

abbrev pub Faultless : Source → Type 0
Faultless [] = Unit {0}
Faultless (chunk c ∷ s) = Faultless s
Faultless (fault e ∷ s) = ⊥

-- Falls with every read that takes something.
abbrev pub weight : Source → ℕ
weight s = length (wire s) + length s

pub record Sink : Type 0 where
  pub taken : List ℕ
  pub outcomes : List (Option Error)

-- writer.Write(bytes): all of them, or an error and none.
unfoldable pub write : List ℕ → Sink → Option Error × Sink
write bytes k = elim k.outcomes [
  | [] ↦ (none, record { taken = k.taken ++ bytes; outcomes = [] })
  | none ∷ rest ↦ (none, record { taken = k.taken ++ bytes; outcomes = rest })
  | some e ∷ rest ↦ (some e, record { taken = k.taken; outcomes = rest })
]
