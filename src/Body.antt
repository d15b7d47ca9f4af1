-- ===== src/Body.antt =====
-- streaming_request.go, readerUploadProvider: the body of an upload, which reads and rewinds use one at a
-- time while stop may come between any two of their steps.
pub mod Limits
pub mod Closing
mod Examples
use cronet_go.Base.{
  ℕ, zero, suc, ◌+◌, ◌-◌, List, [], ◌∷◌, Option, none, some, Bool, true, false, if◌then◌else◌, not,
  ◌&&◌, ◌||◌, ◌==◌, ltb, min, Error, eof, unexpected_eof, closed_pipe, failure,
}

abbrev pub rewind_unsupported : Error
rewind_unsupported = failure 41

-- Where rewind stands: after it took the old reader, after it closed it, and with a new reader that it
-- got too late.
pub data Rewind : Type 0 where
  idle : Rewind
  closing_old : Rewind
  fetching : Rewind
  dropping : Rewind

abbrev pub is_idle : Rewind → Bool
is_idle idle = true
is_idle p = false

pub record Provider : Type 0 where
  -- Whether `reader` is set, and whether `getBody` is.
  pub held : Bool
  pub can_rewind : Bool
  pub closed : Bool
  pub length : ℕ
  pub read_len : ℕ
  pub rewind : Rewind
  -- The readers that were got so far, and those that were closed.
  pub opened : ℕ
  pub closes : ℕ

-- A provider as its makers build it, with the first reader.
unfoldable pub new_provider : ℕ → Bool → Provider
new_provider length can_rewind = record {
  held = true;
  can_rewind = can_rewind;
  closed = false;
  length = length;
  read_len = 0;
  rewind = idle;
  opened = 1;
  closes = 0;
}

-- The size of the slice that read passes on, for one of n bytes.
unfoldable pub allowed : ℕ → Provider → ℕ
allowed n p = if ltb 0 p.length then min n (p.length - p.read_len) else n

-- The error of a read that got n bytes, with the total counted already.
unfoldable pub read_error : ℕ → Option Error → Provider → Option Error
read_error n none p = none
read_error n (some eof) p =
    if ltb 0 p.length
    then if p.read_len == p.length && ltb 0 n then none else some unexpected_eof
    else some eof
read_error n (some e) p = some e

abbrev counted : ℕ → Provider → Provider
counted got p = record p { read_len = p.read_len + got }

-- read, when the reader gives `got` bytes and an error for the slice that it is passed.
unfoldable pub read : ℕ → Option Error → Provider → (ℕ × Option Error) × Provider
read got e p =
    if p.held
    then ((got, read_error got e (counted got p)), counted got p)
    else ((0, some closed_pipe), p)

-- Length: -1 stands for an unknown length.
unfoldable pub declared_length : Provider → Option ℕ
declared_length p = if ltb 0 p.length then some p.length else none

-- rewind, from one step that others can see to the next; `fetched` is whether getBody gives a reader.
unfoldable pub rewind_step : Bool → Rewind → Provider → Provider
rewind_step fetched idle p =
    if not p.can_rewind || p.closed
    then p
    else record p { held = false; rewind = if p.held then closing_old else fetching }
rewind_step fetched closing_old p = record p { closes = suc p.closes; rewind = fetching }
rewind_step fetched fetching p =
    if fetched
    then (if p.closed
        then record p { opened = suc p.opened; rewind = dropping }
        else record p { opened = suc p.opened; held = true; read_len = 0; rewind = idle })
    else record p { rewind = idle }
rewind_step fetched dropping p = record p { closes = suc p.closes; rewind = idle }

-- stop; its reader is closed before anything else is done with it.
unfoldable pub stop : Provider → Provider
stop p = record p {
  closed = true;
  held = false;
  closes = if p.held then suc p.closes else p.closes;
}

pub data Event : Type 0 where
  reads : ℕ → Option Error → Event
  rewinds : Bool → Event
  stops : Event

-- A reader gives no more bytes than it was asked for, and reads wait for a rewind under way.
unfoldable pub step : ℕ → Provider → Event → Provider
step size p (reads got e) =
    if is_idle p.rewind && not (ltb (allowed size p) got) then (read got e p).1 else p
step size p (rewinds fetched) = rewind_step fetched p.rewind p
step size p stops = stop p

unfoldable pub run : ℕ → Provider → List Event → Provider
run size p [] = p
run size p (e ∷ es) = run size (step size p e) es
