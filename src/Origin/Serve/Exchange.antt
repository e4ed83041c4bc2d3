-- ===== src/Origin/Serve/Exchange.antt =====
-- pkg/origin/respond.go, serveTest: theorems about the log entry and the answer of one request.
use mecone.Prelude.{
  ℕ, ◌+◌, ◌<◌, ◌≡◌, refl, ◌↔◌, inl, inr, Bool, true, Option, some, [], ◌∷◌, ◌++◌, Str, pos,
  Bool-cases, arith, length, get_elem?, set, length-set, get_elem?-set, get_elem?-lt,
}
use mecone.Http
use mecone.Maps
use mecone.Maps.{str_key}
use mecone.Strconv.{atoi}
use mecone.TestDef.{Test}
use mecone.TestDef.Script.Answers.{answer_name, wire_or_zero}
use mecone.Protocol.{Response, LogEntry, response_for, header_step}
use mecone.Protocol.Lines.{Times}
use mecone.Origin.Store.{Store, Entry, get, next_seq, append_log, max_log_entries}
use mecone.Origin.Respond.{Request, Content}
use mecone.Origin.Serve.{
  Reply, aborted, sent, Sent, write, answer, new_log_entry, serve_entry, serve_test,
}

-- A handler that takes a number and then logs adds to the entry that it holds.
module _ (s : Store) (ref : ℕ) (e : Entry) (at : get_elem? s.heap ref ≡ some e) where
  pub number-next_seq : (next_seq ref s).1 ≡ e.seq + 1
  unfolding next_seq
  number-next_seq = ground arith

  append_log-next_seq :
      (le : LogEntry)
      → length e.log < max_log_entries
      → get_elem? (append_log ref le (next_seq ref s).0).heap ref
        ≡ some (record e { seq = e.seq + 1; log = e.log ++ le ∷ [] })
  unfolding next_seq append_log
  append_log-next_seq le room =
      let bumped = record e { seq = e.seq + 1 } in
      let after = record bumped { log = e.log ++ le ∷ [] } in
      let inside = get_elem?-lt s.heap ref e at in
      ground (
        arith,
        get_elem?-set s.heap ref ref bumped inside,
        length-set s.heap ref bumped,
        get_elem?-set (set s.heap ref bumped) ref ref after,
      )

module _ (times : Times) (content : Content) where
  -- What serving a request adds to its entry, and what the client gets.
  pub record Served (e : Entry) (r : Request) (after : Option Entry) (reply : Reply) : Type 0 where
    pub le : LogEntry
    pub logged : after ≡ some (record e { seq = e.seq + 1; log = e.log ++ le ∷ [] })
    pub seq : le.seq ≡ e.seq + 1
    pub step : le.step ≡ atoi (Http.get r.header header_step)
    pub response : le.response ≡ (response_for e.script le.step).0
    pub request : (le.method ≡ r.method) × (le.target ≡ r.target)
    pub status : (w : Sent) → reply ≡ sent w → le.status ≡ w.status
    pub dropped : reply ≡ aborted → le.status ≡ pos 0
    pub disconnects : (reply ≡ aborted) ↔ ((response_for e.script le.step).1.disconnect ≡ true)

  serve_entry-Served :
      (r : Request) (now : ℕ) (waited : Bool) (s : Store) (ref : ℕ) (e : Entry)
      → get_elem? s.heap ref ≡ some e
      → length e.log < max_log_entries
      → Served e r
          (get_elem? (serve_entry times content ref e.script r now waited s).0.heap ref)
          (serve_entry times content ref e.script r now waited s).1
  unfolding serve_entry answer write new_log_entry
  serve_entry-Served r now waited s ref e at room =
      let step = atoi (Http.get r.header header_step) in
      let (name, resp) = response_for e.script step in
      let le = new_log_entry r (next_seq ref s).1 step name now in
      let full = (answer times content r resp le now).1 in
      elim (Bool-cases resp.disconnect) [
        | inl cut_off ↦ record {
          le = le;
          logged = ground (arith, append_log-next_seq s ref e at le room);
          seq = number-next_seq s ref e at;
          step = refl;
          response = refl;
          request = (refl, refl);
          status = λ w h. absurd (ground arith);
          dropped = λ h. refl;
          disconnects = (λ h. cut_off, λ h. ground arith);
        }
        | inr stays ↦ record {
          le = full;
          logged = ground (arith, append_log-next_seq s ref e at full room);
          seq = number-next_seq s ref e at;
          step = refl;
          response = refl;
          request = (refl, refl);
          status = λ w h. ground arith;
          dropped = λ h. absurd (ground arith);
          disconnects = (λ h. absurd (ground arith), λ h. absurd (cc));
        }
      ]

  -- While the log has room, serving a request for a known test gives it the next sequence number and logs it once, with its
  -- step and the name of the response that the script has for the step. The status in the log is the
  -- one that is sent, and 0 where the script drops the connection, which is where the handler aborts.
  pub serve_test-Served :
      (id : Str) (r : Request) (now : ℕ) (waited : Bool) (s : Store) (ref : ℕ) (e : Entry)
      → get id s ≡ some ref
      → get_elem? s.heap ref ≡ some e
      → length e.log < max_log_entries
      → Served e r
          (get_elem? (serve_test times content id r now waited s).0.heap ref)
          (serve_test times content id r now waited s).1
  unfolding serve_test
  serve_test-Served id r now waited s ref e found at room =
      rw (found, serve_test, at) (serve_entry-Served r now waited s ref e at room)

  -- The response that a test gives to the request of the step at an index.
  abbrev pub scripted : Test → ℕ → Response
  scripted t k = wire_or_zero (Maps.lookup (answer_name t k) t.responses)
