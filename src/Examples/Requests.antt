-- ===== src/Examples/Requests.antt =====
-- A store with one test, requests to it, and conditional requests, of pkg/origin.
use mecone.Prelude.{
  ℕ, ◌≤◌, ◌<◌, ◌≡◌, refl, true, false, none, some, [], ◌∷◌, str, eq_str, pos, arith, length,
  get_elem?, any,
}
use mecone.Maps
use mecone.Maps.{str_key}
use mecone.Http
use mecone.Http.{canonical_key, is_tchar, capitalise}
use mecone.Strings.Laws.{Without}
use mecone.Strconv.{itoa, itoa_fuel}
use mecone.TestDef
use mecone.TestDef.{Test, level_must}
use mecone.TestDef.Script.{script, wire, response_name}
use mecone.TestDef.Script.Answers.{answer_name, wire_or_zero, response_for-script}
use mecone.Protocol.{LogEntry, response_for, response_body, header_step}
use mecone.Origin.Etags.{etag_list_matches}
use mecone.Origin.Etags.Listed.{Tag, text, field, strong_text, etag_list_matches-field}
use mecone.Origin.Store.{
  Store, Entry, new_store, fresh, max_log_entries, put, get, next_seq, append_log, maybe_sweep,
  sweep,
}
use mecone.Origin.Store.Answers.{IsValid, view, view-put}
use mecone.Origin.Store.Sharing.{
  System, Reach, initial, upload, find, number, log, here, next, holding, numbered, finished,
  count_seq, Reach-log,
}
use mecone.Origin.Respond.{
  Request, Content, build, stamp, scripted_header, scripted_status, not_modified_status,
}
use mecone.Origin.Respond.Conditional.{Answers304, build-no_ranges}
use mecone.Origin.Serve.{sent, write, serve_test, handle_put_script}
use mecone.Origin.Serve.Exchange.{Served, serve_test-Served}
use mecone.Origin.Serve.Steps.{scripted, serve_all, serve_test-uploaded}
use mecone.Examples.Texts.{fixed_times, id_a, id_a-valid_id}

-- A server that sends the whole body whatever the request asks for.
abbrev whole : Content
whole = record {
  serve_content = λ r h modified body. record { header = h; status = pos 200; body = body };
}

abbrev pub page : TestDef.Response
page = record {
  status = pos 200;
  headers = str "Etag: \"v1\"" ∷ [];
  body = str "hello";
  body_size = pos 0;
  interim = [];
  trailers = [];
  ignore_conditionals = false;
  ranges = false;
  delay = pos 0;
  disconnect = false;
}

abbrev pub get_page : TestDef.Step
get_page = record {
  wait = none;
  parallel = false;
  method = str "GET";
  path = [];
  query = [];
  headers = [];
  body = [];
  respond_with = [];
  arrange = false;
  expect = none;
}

abbrev pub page_test : Test
page_test = record {
  id = str "page";
  title = str "Page";
  level = level_must;
  refs = [];
  protocols = [];
  requires = [];
  responses = (str "page", page) ∷ [];
  steps = get_page ∷ [];
  suite = str "s";
  group = str "g";
}

abbrev first_request : Request
first_request = record {
  method = str "GET";
  target = str "/t/x";
  host = str "origin";
  header = (header_step, str "1" ∷ []) ∷ (str "If-None-Match", str "\"v1\"" ∷ []) ∷ [];
  proto_major = 1;
  tls = false;
}

response_for-script_example : response_for (script page_test) (pos 1) ≡ (
  answer_name page_test 0,
  wire_or_zero (Maps.lookup (answer_name page_test 0) page_test.responses),
)
response_for-script_example = response_for-script page_test 0

pub new_store-IsValid : {ttl : ℕ} → IsValid (new_store ttl)
unfolding Maps.lookup
new_store-IsValid = record { unique = tt; in_heap = λ id ref h. absurd (cc) }

view-put_example :
    view (put id_a (script page_test) 9 (new_store 5)) id_a ≡ some (fresh (script page_test) 9)
unfolding eq_str
view-put_example = view-put id_a id_a (script page_test) 9 (new_store 5) new_store-IsValid

step_header : Http.get first_request.header header_step ≡ itoa 1
unfolding Http.get Http.values canonical_key is_tchar capitalise Maps.lookup eq_str itoa itoa_fuel
step_header = refl

stays : (scripted fixed_times whole page_test 0).disconnect ≡ false
unfolding Maps.lookup eq_str wire TestDef.is_wait response_name
stays = refl

serve_test-uploaded_example :
    (serve_test fixed_times whole id_a first_request 14 true (
      serve_all fixed_times whole id_a
        ((first_request, 12, true) ∷ [])
        (handle_put_script id_a (some (script page_test)) 9 (new_store 5)).0)).1
    ≡ sent (
        write fixed_times
          (stamp
            (answer_name page_test 0)
            2
            14
            (build fixed_times whole first_request (scripted fixed_times whole page_test 0) 14))
          (scripted fixed_times whole page_test 0).interim
          (scripted fixed_times whole page_test 0).trailers
          14)
serve_test-uploaded_example =
    serve_test-uploaded fixed_times whole id_a page_test 0 9 14 true first_request
      ((first_request, 12, true) ∷ []) (new_store 5) new_store-IsValid id_a-valid_id (omega arith)
      step_header stays (λ h. refl)

-- A store that holds the test's script at address 0.
abbrev one_test : Store
one_test = record (new_store 5) { tests = (id_a, 0) ∷ []; heap = fresh (script page_test) 9 ∷ [] }

get-one_test : get id_a one_test ≡ some 0
unfolding get Maps.lookup eq_str
get-one_test = refl

serve_test-Served_example :
    Served fixed_times whole
      (fresh (script page_test) 9)
      first_request
      (get_elem? (serve_test fixed_times whole id_a first_request 12 true one_test).0.heap 0)
      (serve_test fixed_times whole id_a first_request 12 true one_test).1
serve_test-Served_example =
    serve_test-Served fixed_times whole id_a first_request 12 true one_test 0
      (fresh (script page_test) 9) get-one_test refl (omega arith)

build-no_ranges_example :
    (Answers304 fixed_times first_request (wire page) 12
      → ((build fixed_times whole first_request (wire page) 12).status ≡ not_modified_status)
        × ((build fixed_times whole first_request (wire page) 12).body ≡ []))
    × (¬ Answers304 fixed_times first_request (wire page) 12
        → build fixed_times whole first_request (wire page) 12 ≡ record {
          header = scripted_header fixed_times (wire page) 12;
          status = scripted_status (wire page);
          body = response_body (wire page);
        })
unfolding wire
build-no_ranges_example = build-no_ranges fixed_times whole first_request (wire page) 12 refl

abbrev tag_a : Tag
tag_a = record { weak = true; opaque = str "a" }

abbrev tag_b : Tag
tag_b = record { weak = false; opaque = str "b" }

tag_a-WellFormed : Without b'"' tag_a.opaque
tag_a-WellFormed = ground arith

tag_b-WellFormed : Without b'"' tag_b.opaque
tag_b-WellFormed = ground arith

etag_list_matches-field_example :
    etag_list_matches (field tag_a (tag_b ∷ [])) (text tag_b)
    ≡ any (λ u. eq_str (strong_text u) (strong_text tag_b)) (tag_a ∷ tag_b ∷ [])
etag_list_matches-field_example =
    etag_list_matches-field tag_a (tag_b ∷ []) tag_b tag_a-WellFormed (tag_b-WellFormed, tt)

-- An upload, and one request for the test: its handler finds the entry, takes a number and logs.
abbrev uploaded : System
uploaded = record (initial 5) { store = put id_a (script page_test) 9 (new_store 5) }

abbrev found : System
found = record uploaded { handlers = holding 0 ∷ [] }

abbrev counted : System
counted = record {
  store = (next_seq 0 found.store).0;
  handlers = numbered 0 (next_seq 0 found.store).1 ∷ [];
}

abbrev logged : LogEntry
logged = record {
  seq = 1;
  step = pos 1;
  response = str "page";
  received = 12;
  method = str "GET";
  target = str "/t/x";
  proto = str "h1";
  header = [];
  status = pos 200;
  response_header = [];
}

abbrev done : System
done = record { store = append_log 0 logged counted.store; handlers = finished ∷ [] }

done-Reach : Reach (initial 5) done
unfolding get put maybe_sweep Maps.lookup Maps.insert next_seq append_log eq_str sweep
done-Reach =
    next
      (next (next (next here (upload id_a (script page_test) 9)) (find id_a 0 refl))
        (number 0 0 refl))
      (log 0 0 1 logged refl refl)

abbrev done_entry : Entry
done_entry = record (fresh (script page_test) 9) { seq = 1; log = logged ∷ [] }

done-entry : get_elem? done.store.heap 0 ≡ some done_entry
unfolding put maybe_sweep next_seq append_log
done-entry = refl

Reach-log_example :
    (length done_entry.log ≤ max_log_entries)
    × ((n : ℕ) → count_seq n done_entry.log ≤ 1)
    × ((n : ℕ) → 0 < count_seq n done_entry.log → (1 ≤ n) × (n ≤ done_entry.seq))
Reach-log_example = Reach-log 5 done 0 done_entry done-Reach done-entry
