-- ===== src/Middleware/Observer.antt =====
-- profiler/http/middleware.go, profiler/http/body.go: `responseObserver`, which stands between a handler and
-- the ResponseWriter of the server, and `BodyRecorder`. What the underlying writer returns for a write is in the
-- call; what is sent to it are the calls of its `WriteHeader` and `Write`.
use webpprof.Prelude.{
  ℕ, ◌+◌, ◌-◌, Bool, true, false, ◌&&◌, ◌||◌, List, [], ◌∷◌, ◌++◌, ltb, leb, ◌==◌, min,
  if◌then◌else◌, length, take,
}

pub record BodyRecorder : Type 0 where
  pub limit : ℕ
  pub body : List ℕ
  pub truncated : Bool

-- `BodyRecorder.Write`; a limit that is not positive is 0
unfoldable pub record_body : BodyRecorder → List ℕ → BodyRecorder
record_body c bytes =
    let remaining = c.limit - length c.body in
    if c.limit == 0 then c else record c {
      body = c.body ++ take (min (length bytes) remaining) bytes;
      truncated = c.truncated || ltb remaining (length bytes);
    }

pub record ResponseObserver : Type 0 where
  pub status : ℕ
  pub size : ℕ
  pub wrote_header : Bool
  pub body : BodyRecorder

-- what the underlying writer is given
pub data Sent : Type 0 where
  header : ℕ → Sent
  content : List ℕ → Sent

unfoldable pub write_header : ResponseObserver → ℕ → ResponseObserver × List Sent
write_header w status =
    if leb 100 status && ltb status 200
    then (w, header status ∷ [])
    else if w.wrote_header
    then (w, [])
    else (record w { wrote_header = true; status = status }, header status ∷ [])

-- the header that Write, ReadFrom and Flush send before all else
unfoldable pub ensure_header : ResponseObserver → ResponseObserver × List Sent
ensure_header w = if w.wrote_header then (w, []) else write_header w 200

-- `Write` of data of which the underlying writer takes `written` bytes
unfoldable pub write : ResponseObserver → List ℕ → ℕ → ResponseObserver × List Sent
write w bytes written =
    let started = ensure_header w in
    (
      record started.0 { body = record_body started.0.body bytes; size = started.0.size + written },
      started.1 ++ (content bytes ∷ []),
    )

-- a call of the handler; `call_read_from` has the pieces that `io.Copy` reads, each with what the underlying
-- writer returns for it
pub data ResponseCall : Type 0 where
  call_write_header : ℕ → ResponseCall
  call_write : List ℕ → ℕ → ResponseCall
  call_flush : ResponseCall
  call_read_from : List (List ℕ × ℕ) → ResponseCall

unfoldable pub copy_to : ResponseObserver → List (List ℕ × ℕ) → ResponseObserver × List Sent
copy_to w [] = (w, [])
copy_to w ((bytes, written) ∷ rest) =
    let first = write w bytes written in
    let later = copy_to first.0 rest in (later.0, first.1 ++ later.1)

unfoldable pub respond : ResponseObserver → ResponseCall → ResponseObserver × List Sent
respond w (call_write_header status) = write_header w status
respond w (call_write bytes written) = write w bytes written
respond w call_flush = ensure_header w
respond w (call_read_from chunks) =
    let started = ensure_header w in
    let copied = copy_to started.0 chunks in (copied.0, started.1 ++ copied.1)

unfoldable pub respond_all : ResponseObserver → List ResponseCall → ResponseObserver × List Sent
respond_all w [] = (w, [])
respond_all w (c ∷ calls) =
    let first = respond w c in
    let later = respond_all first.0 calls in (later.0, first.1 ++ later.1)

-- the observer that `MiddlewareWith` makes
unfoldable pub new_observer : ℕ → ResponseObserver
new_observer limit = record {
  status = 200;
  size = 0;
  wrote_header = false;
  body = record { limit = limit; body = []; truncated = false };
}
