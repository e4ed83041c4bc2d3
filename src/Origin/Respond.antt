-- ===== src/Origin/Respond.antt =====
-- pkg/origin/respond.go: the response that answers a test request.
pub mod Conditional
use mecone.Prelude.{
  ℕ, ◌+◌, ◌-◌, ◌*◌, ◌/◌, Bool, false, ◌&&◌, ◌||◌, not, Option, some, List, [], ◌∷◌, map, Str, str,
  eq_str, ℤ, pos, eq_ℤ, leb, ◌==◌, if◌then◌else◌, set,
}
use mecone.Strings.{cut, join, trim_space}
use mecone.Http
use mecone.Http.{Header}
use mecone.Strconv.{itoa}
use mecone.Protocol.{
  Response, response_body, header_response, header_origin_seq, header_origin_time,
}
use mecone.Protocol.Lines.{Times, split_line, expand}
use mecone.Origin.Etags.{etag_list_matches}

-- What a handler reads of an http.Request.
pub record Request : Type 0 where
  pub method : Str
  pub target : Str
  pub host : Str
  pub header : Header
  pub proto_major : ℕ
  pub tls : Bool

-- type recorder struct
pub record Recorder : Type 0 where
  pub header : Header
  pub status : ℤ
  pub body : Str

-- What the origin uses of package `net/http`: http.ServeContent writes a response with these header
-- fields for a request, of a body with a modification time, which may be unknown.
pub record Content : Type 0 where
  pub serve_content : Request → Header → Option ℕ → Str → Recorder

abbrev pub ok_status : ℤ
ok_status = pos 200

abbrev pub not_modified_status : ℤ
not_modified_status = pos 304

abbrev content_type : Str
content_type = str "Content-Type"

abbrev default_content_type : Str
default_content_type = str "text/plain; charset=utf-8"

-- strings.EqualFold with the unit "bytes": ASCII letters fold, and so does the long s
abbrev fold : ℕ → ℕ
fold c = if leb b'A' c && leb c b'Z' then c + 32 else if c == 0x17f then b's' else c

-- func isBytesRange
unfoldable pub is_bytes_range : Str → Bool
is_bytes_range v =
    let (unit, _, found) = cut v (str "=") in
    found && eq_str (map fold (trim_space unit)) (str "bytes")

-- func withoutIgnoredRange
unfoldable pub without_ignored_range : Request → Request
without_ignored_range r =
    let v = Http.get r.header (str "Range") in
    if eq_str v [] || (eq_str r.method (str "GET") && is_bytes_range v)
    then r
    else record r { header = Http.del r.header (str "Range") }

-- !modified.After(since), of two dates that may have failed to parse
abbrev unchanged : Option ℕ → Option ℕ → Bool
unchanged (some since) (some modified) = leb modified since
unchanged _ _ = false

-- the status of the response before any condition is looked at
unfoldable pub scripted_status : Response → ℤ
scripted_status resp = if eq_ℤ resp.status (pos 0) then ok_status else resp.status

module _ (times : Times) where
  -- func notModified
  unfoldable pub not_modified : Request → Header → Bool
  not_modified r h =
      let inm = join (Http.values r.header (str "If-None-Match")) (str ",") in
      let etag = Http.get h (str "Etag") in
      let since = times.parse_time (Http.get r.header (str "If-Modified-Since")) in
      let modified = times.parse_time (Http.get h (str "Last-Modified")) in
      if not (eq_str r.method (str "GET")) && not (eq_str r.method (str "HEAD"))
      then false
      else if not (eq_str inm [])
      then not (eq_str etag []) && etag_list_matches inm etag
      else unchanged since modified

  -- the loop that adds the scripted header lines, of the response and of its trailers
  unfoldable pub add_lines : ℕ → List Str → Header → Header
  add_lines now [] h = h
  add_lines now (line ∷ lines) h =
      let (name, value, _) = split_line line in
      add_lines now lines (Http.add h name (expand times value now))

  -- the header of the response before any condition is looked at
  unfoldable pub scripted_header : Response → ℕ → Header
  scripted_header resp now =
      let h = add_lines now resp.headers [] in
      if eq_str (Http.get h content_type) []
      then Http.set h content_type default_content_type
      else h

  -- func build
  unfoldable pub build : Content → Request → Response → ℕ → Recorder
  build content r resp now =
      let h = scripted_header resp now in
      let status = scripted_status resp in
      let body = response_body resp in
      if resp.ranges && eq_ℤ status ok_status
      then content.serve_content (without_ignored_range r) h
          (times.parse_time (Http.get h (str "Last-Modified"))) body
      else if not resp.ignore_conditionals && eq_ℤ status ok_status && not_modified r h
      then record {
        header = Http.del (Http.del h content_type) (str "Content-Length");
        status = not_modified_status;
        body = [];
      }
      else record { header = h; status = status; body = body }

-- now.UnixMilli(), of a time since the zero time, which lies 62135596800 seconds before the epoch
abbrev unix_milli : ℕ → ℕ
unix_milli now = (now - 62_135_596_800 * 1_000_000_000) / 1_000_000

-- func (rec *recorder) stamp
unfoldable pub stamp : Str → ℕ → ℕ → Recorder → Recorder
stamp name seq now rec =
    let named : Header =
      if eq_str name [] then rec.header else Http.set rec.header header_response name in
    let numbered = Http.set named header_origin_seq (itoa seq) in
    record rec { header = Http.set numbered header_origin_time (itoa (unix_milli now)) }
