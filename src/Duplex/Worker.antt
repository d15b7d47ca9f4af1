-- ===== src/Duplex/Worker.antt =====
-- browser_xhttp_duplex.go: the upload worker (runUpload), the goroutine that frees the native buffers,
-- and the events of a request in any order. An event that is not possible changes nothing.
use Prim.Native.String.{String}
use cronet_go.Base.{
  ℕ, zero, suc, List, [], ◌∷◌, ◌++◌, Option, none, some, Bool, true, false, if◌then◌else◌, not,
  ◌&&◌, ◌||◌, ◌==◌, Error, no_progress,
}
use cronet_go.Conn.{is_shut, Terminal}
use cronet_go.Duplex.{
  Duplex, Headers, new_duplex, is_some, touch, start, cancel_locked, on_stream_ready,
  on_response_headers_received, on_response_trailers_received, on_read_completed,
  on_write_completed, on_terminal, raw_read_round, RawRead, gives, fails, waits, write_failed,
}

-- Where runUpload stands. After a write it keeps the error that came with the bytes.
pub data Worker : Type 0 where
  awaiting : Worker
  uploading : Worker
  writing : Option Error → Worker
  exited : Worker

pub record System : Type 0 where
  pub request : Duplex
  pub worker : Worker
  -- How often the goroutine of newBrowserDuplexRequest has freed the two buffers.
  pub freed : ℕ
  -- All that the native reads brought, and all that readRawContext gave out.
  pub supplied : List ℕ
  pub delivered : List ℕ

abbrev pub stopped : Duplex → Bool
stopped r = r.terminal || is_some r.err

abbrev pub cancel_if : Option Error → Duplex → Duplex
cancel_if none r = r
cancel_if (some e) r = cancel_locked e r

-- The end of a round: an error of the upload cancels, and the worker stops or goes round.
unfoldable pub end_round : Option Error → System → System
end_round e s =
    let r = cancel_if e s.request in
    record s { request = r; worker = if stopped r then exited else uploading }

-- `r.stream.Write`; a Write that does not start cancels the request.
unfoldable pub start_write : Bool → Duplex → Duplex
start_write accepted r =
    let r' = record r { write_pending = true; native = touch r.native.writing r.native } in
    if accepted
    then record r' { native = record (touch r.native.writing r.native) { writing = true } }
    else cancel_locked write_failed r'

unfoldable pub uploaded_live : ℕ → Option Error → Bool → System → System
uploaded_live zero none accepted s = end_round (some no_progress) s
uploaded_live zero (some e) accepted s = end_round (some e) s
uploaded_live (suc n) e accepted s = record s {
  request = start_write accepted s.request;
  worker = writing e;
}

-- upload.Read returned n bytes and an error.
unfoldable pub uploaded : ℕ → Option Error → Bool → System → System
uploaded n e accepted s =
    if stopped s.request then record s { worker = exited } else uploaded_live n e accepted s

pub data Event : Type 0 where
  starts : Bool → Event
  cancels : Error → Event
  stream_ready : Event
  headers_received : Bool → Headers → Event
  trailers_received : String → Event
  read_completed : List ℕ → Event
  write_completed : Event
  ends : Terminal → Event
  reads : ℕ → Option Error → Bool → Event
  worker_begins : Event
  upload_read : ℕ → Option Error → Bool → Event
  worker_wakes : Event
  cleans : Event

-- The inner loop of runUpload ends when the write is over or the request is.
unfoldable pub wake : System → Worker → System
wake s (writing e) = if s.request.write_pending && not (stopped s.request) then s else end_round e s
wake s w = s

-- The native stream lets go of the buffers before a terminal callback.
abbrev pub let_go : Duplex → Duplex
let_go r = record r { native = record (r.native) { reading = false; writing = false } }

abbrev pub read_over : Duplex → Duplex
read_over r = record r { native = record (r.native) { reading = false } }

abbrev pub write_over : Duplex → Duplex
write_over r = record r { native = record (r.native) { writing = false } }

unfoldable pub begin_upload : System → Worker → System
begin_upload s awaiting =
    if is_shut s.request.ready_ch
    then record s { worker = uploading }
    else if is_shut s.request.done
    then record s { worker = exited }
    else s
begin_upload s w = s

unfoldable pub upload_step : ℕ → Option Error → Bool → System → Worker → System
upload_step n e accepted s uploading = uploaded n e accepted s
upload_step n e accepted s w = s

unfoldable pub clean : System → Worker → System
clean s exited =
    if is_shut s.request.done && (s.freed == 0) then record s { freed = suc s.freed } else s
clean s w = s

abbrev pub given : RawRead → List ℕ
given (gives bytes) = bytes
given (fails e) = []
given (waits n) = []

-- One start for each request; callbacks come from a stream that was started, headers once, and a
-- completion only from a native call that is under way.
unfoldable pub step : System → Event → System
step s (starts accepted) =
    if s.request.started then s else record s { request = (start accepted s.request).1 }
step s (cancels e) = record s { request = cancel_locked e s.request }
step s stream_ready =
    if s.request.started then record s { request = on_stream_ready s.request } else s
step s (headers_received accepted h) =
    if s.request.started && not s.request.have_headers
    then record s { request = on_response_headers_received accepted h s.request }
    else s
step s (trailers_received status) = record s {
  request = on_response_trailers_received status s.request;
}
step s (read_completed bytes) =
    if s.request.native.reading
    then record s {
      request = on_read_completed bytes (read_over s.request);
      supplied = s.supplied ++ bytes;
    }
    else s
step s write_completed =
    if s.request.native.writing
    then record s { request = on_write_completed (write_over s.request) }
    else s
step s (ends t) = record s { request = on_terminal t (let_go s.request) }
step s (reads n ctx accepted) =
    let (r, request) = raw_read_round n ctx accepted s.request in
    record s { request = request; delivered = s.delivered ++ given r }
step s worker_begins = begin_upload s s.worker
step s (upload_read n e accepted) = upload_step n e accepted s s.worker
step s worker_wakes = wake s s.worker
step s cleans = clean s s.worker

unfoldable pub run : System → List Event → System
run s [] = s
run s (e ∷ es) = run (step s e) es

abbrev pub initial : Bool → System
initial framed = record {
  request = new_duplex framed;
  worker = awaiting;
  freed = 0;
  supplied = [];
  delivered = [];
}
