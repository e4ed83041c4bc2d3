-- ===== src/Origin/Serve.antt =====
-- pkg/origin/control.go and the test handler of respond.go: what each route does to the store and
-- what it sends. Decoding a script is package `encoding/json`'s, and an argument; writing JSON is not
-- modelled beyond the value that is written.
pub mod Exchange
pub mod Paths
pub mod Steps
use mecone.Prelude.{
  ℕ, ◌/◌, Bool, true, false, ◌&&◌, ◌||◌, not, Option, none, some, List, [], ◌∷◌, Str, str, eq_str,
  ℤ, pos, leb_ℤ, if◌then◌else◌, get_elem?, set,
}
use mecone.Strings.{cut, cut_prefix, split}
use mecone.Http
use mecone.Http.{Header}
use mecone.Strconv.{atoi}
use mecone.Protocol.{
  Script, Interim, Response, LogEntry, Log, response_for, header_step, test_prefix, version,
}
use mecone.Protocol.Ids.{valid_id}
use mecone.Protocol.Lines.{Times, split_line}
use mecone.Proto.{from_request}
use mecone.Origin.Store
use mecone.Origin.Store.{Store, put, get, remove, next_seq, append_log, snapshot}
use mecone.Origin.Respond.{Request, Recorder, Content, add_lines, build, stamp}

-- A response to a test request, as it goes out: the interim responses, the final status, header and
-- body, and what the header map holds when the trailers are sent.
pub record Sent : Type 0 where
  pub interim : List (ℤ × Header)
  pub status : ℤ
  pub header : Header
  pub body : Str
  pub trailers : Header

-- What a handler answers. An aborted request drops its connection, and one that is abandoned ended
-- during the scripted delay.
pub data Reply : Type 0 where
  control_error : (status : ℕ) → Reply
  no_content : Reply
  info : (protocol : ℕ) (listeners : List Str) → Reply
  entries : Log → Reply
  aborted abandoned : Reply
  sent : Sent → Reply

-- func handleInfo
unfoldable pub handle_info : List Str → Reply
handle_info listeners = info version listeners

-- func handlePutScript, with the script that the request's body decodes to
unfoldable pub handle_put_script : Str → Option Script → ℕ → Store → Store × Reply
handle_put_script id decoded now s =
    if not (valid_id id)
    then (s, control_error 400)
    else elim decoded [ none ↦ (s, control_error 400) | some sc ↦ (put id sc now s, no_content) ]

-- func handleDeleteScript
unfoldable pub handle_delete_script : Str → Store → Store × Reply
handle_delete_script id s = (remove id s, no_content)

-- func handleLog
unfoldable pub handle_log : Str → Store → Reply
handle_log id s = elim (get id s) [ none ↦ control_error 404 | some ref ↦ entries (snapshot ref s) ]

abbrev is_dots : Str → Bool
is_dots segment = eq_str segment (str ".") || eq_str segment (str "..")

-- no segment that path.Clean takes out; the last one may be empty
unfoldable pub clean_segments : List Str → Bool
clean_segments [] = true
clean_segments (last ∷ []) = not (is_dots last)
clean_segments (segment ∷ next ∷ more) =
    not (eq_str segment []) && not (is_dots segment) && clean_segments (next ∷ more)

-- whether http.ServeMux takes the path of a request as it is, where the method is not CONNECT; it answers
-- every other path with a redirect to the clean one, which reaches no handler
unfoldable pub is_clean : Str → Bool
is_clean path = elim (cut_prefix path (str "/")) [
  | none ↦ false
  | some rest ↦ clean_segments (split b'/' rest)
]

-- the test ID that the routes "/t/{id}" and "/t/{id}/{path...}" read from a request path, as it is
-- written there; none where the path leads to neither route
unfoldable pub path_id : Str → Option Str
path_id path = if not (is_clean path) then none else elim (cut_prefix path test_prefix) [
  | none ↦ none
  | some rest ↦ (let (id, _, _) = cut rest (str "/") in if eq_str id [] then none else some id)
]

-- func newLogEntry
unfoldable pub new_log_entry : Request → ℕ → ℤ → Str → ℕ → LogEntry
new_log_entry r seq step name now = record {
  seq = seq;
  step = step;
  response = name;
  received = now;
  method = r.method;
  target = r.target;
  proto = from_request r.proto_major r.tls;
  header = Http.set r.header (str "Host") r.host;
  status = pos 0;
  response_header = [];
}

-- the loop that announces the trailers
unfoldable pub announce : List Str → Header → Header
announce [] h = h
announce (line ∷ lines) h =
    let (name, _, _) = split_line line in announce lines (Http.add h (str "Trailer") name)

module _ (times : Times) where
  -- func writeInterim: the header map is cleared behind each interim response
  unfoldable pub write_interim : ℕ → List Interim → List (ℤ × Header)
  write_interim now [] = []
  write_interim now (i ∷ interim) =
      (i.status, add_lines times now i.headers []) ∷ write_interim now interim

  -- func writeFinal, after the interim responses
  unfoldable pub write : Recorder → List Interim → List Str → ℕ → Sent
  unfolding write_interim announce
  write out interim trailers now =
      let h = announce trailers out.header in
      record {
        interim = write_interim now interim;
        status = out.status;
        header = h;
        body = out.body;
        trailers = add_lines times now trailers h;
      }

module _ (times : Times) (content : Content) where
  -- the answer that `serveTest` builds and the log entry that it records for it
  unfoldable pub answer : Request → Response → LogEntry → ℕ → Recorder × LogEntry
  answer r resp le now =
      let out = stamp le.response le.seq now (build times content r resp now) in
      (out, record le { status = out.status; response_header = out.header })

  -- the rest of `serveTest`, with the entry's address and its script; `waited` says that the request
  -- is still there when the scripted delay is over
  unfoldable pub serve_entry : ℕ → Script → Request → ℕ → Bool → Store → Store × Reply
  serve_entry ref script r now waited s =
      let step = atoi (Http.get r.header header_step) in
      let (name, resp) = response_for script step in
      let (s', seq) = next_seq ref s in
      let le = new_log_entry r seq step name now in
      let (out, logged) = answer r resp le now in
      if resp.disconnect then (append_log ref le s', aborted) else (
        append_log ref logged s',
        (if not (leb_ℤ resp.delay_ms (pos 0)) && not waited
            then abandoned
            else sent (write times out resp.interim resp.trailers now)),
      )

  -- func serveTest
  unfoldable pub serve_test : Str → Request → ℕ → Bool → Store → Store × Reply
  serve_test id r now waited s = elim (get id s) [
    | none ↦ (s, control_error 404)
    | some ref ↦ elim (get_elem? s.heap ref) [
      | none ↦ (s, control_error 404)
      | some e ↦ serve_entry ref e.script r now waited s
    ]
  ]
