-- ===== src/Origin/Serve/Steps.antt =====
-- pkg/origin/respond.go, serveTest: the answers to the requests of a test, from the upload of its script
-- on.
use mathlib.Core.Path.{subst}
use mecone.Prelude.{
  ℕ, suc, ◌+◌, ◌^◌, ◌<◌, ◌≡◌, refl, ap, ◌∙◌, inl, inr, Bool, true, false, some, List, [], ◌∷◌, ◌++◌,
  Str, eq_str_refl, pos, leb_ℤ, Bool-cases, Option-cases, arith, ltb, length, get_elem?,
  get_elem?-set, get_elem?-lt,
}
use mecone.Http
use mecone.Maps
use mecone.Maps.{str_key}
use mecone.Strconv.{atoi, itoa}
use mecone.Strconv.RoundTrip.{atoi-itoa}
use mecone.TestDef.{Test}
use mecone.TestDef.Script.{script}
use mecone.TestDef.Script.Answers.{answer_name, wire_or_zero, response_for-script}
use mecone.Protocol.{Script, Response, LogEntry, response_for, header_step}
use mecone.Protocol.Ids.{valid_id}
use mecone.Protocol.Lines.{Times}
use mecone.Origin.Store.{fresh, Store, Entry, put, get, next_seq, append_log, max_log_entries}
use mecone.Origin.Store.Answers.{IsValid, view, view-put}
use mecone.Origin.Respond.{Request, Content, build, stamp}
use mecone.Origin.Serve.{
  sent, write, answer, new_log_entry, serve_entry, serve_test, handle_put_script,
}
use mecone.Origin.Serve.Exchange.{number-next_seq}

-- The store knows the test under its ID, at an address, with this script and this many requests so far.
record Holds (id : Str) (ref : ℕ) (sc : Script) (n : ℕ) (s : Store) : Type 0 where
  entry : Entry
  found : get id s ≡ some ref
  at : get_elem? s.heap ref ≡ some entry
  same : entry.script ≡ sc
  served : entry.seq ≡ n

next_seq-Holds :
    (id : Str) (ref : ℕ) (sc : Script) (n : ℕ) (s : Store) (h : Holds id ref sc n s)
    → Holds id ref sc (n + 1) (next_seq ref s).0
unfolding next_seq get
next_seq-Holds id ref sc n s h =
    let bumped = record h.entry { seq = h.entry.seq + 1 } in
    let inside = get_elem?-lt s.heap ref h.entry h.at in
    record {
      entry = bumped;
      found = rw (h.at, next_seq) h.found;
      at = ground (arith, h.at, get_elem?-set s.heap ref ref bumped inside);
      same = h.same;
      served = ap (λ k. k + 1) h.served;
    }

append_log-Holds :
    (id : Str) (ref : ℕ) (sc : Script) (n : ℕ) (s : Store) (h : Holds id ref sc n s) (le : LogEntry)
    → Holds id ref sc n (append_log ref le s)
unfolding append_log get
append_log-Holds id ref sc n s h le = elim (Bool-cases (ltb (length h.entry.log) max_log_entries)) [
  | inr full ↦ rw (h.at, append_log, full) h
  | inl room ↦
      let after = record h.entry { log = h.entry.log ++ le ∷ [] } in
      let inside = get_elem?-lt s.heap ref h.entry h.at in
      record {
        entry = after;
        found = rw (h.at, append_log, room) h.found;
        at = ground (arith, h.at, get_elem?-set s.heap ref ref after inside);
        same = h.same;
        served = h.served;
      }
]

module _ (times : Times) (content : Content) where
  -- The response that a test gives to the request of the step at an index.
  abbrev pub scripted : Test → ℕ → Response
  scripted t k = wire_or_zero (Maps.lookup (answer_name t k) t.responses)

  -- Requests for a test, each with the time at which it is served, and whether it is still there when
  -- the delay of its response is over.
  abbrev pub serve_all : Str → List (Request × ℕ × Bool) → Store → Store
  serve_all id [] s = s
  serve_all id ((r, now, waited) ∷ requests) s =
      serve_all id requests (serve_test times content id r now waited s).0

  serve_test-eq :
      (id : Str) (ref : ℕ) (sc : Script) (n : ℕ) (r : Request) (now : ℕ) (waited : Bool) (s : Store)
      (h : Holds id ref sc n s)
      → serve_test times content id r now waited s ≡ serve_entry times content ref sc r now waited s
  unfolding serve_test
  serve_test-eq id ref sc n r now waited s h =
      rw (h.found, serve_test, h.at)
        (ap (λ x. serve_entry times content ref x r now waited s) h.same)

  serve_test-Holds :
      (id : Str) (ref : ℕ) (sc : Script) (n : ℕ) (r : Request) (now : ℕ) (waited : Bool) (s : Store)
      → Holds id ref sc n s
      → Holds id ref sc (n + 1) (serve_test times content id r now waited s).0
  unfolding serve_entry
  serve_test-Holds id ref sc n r now waited s h =
      let bumped = next_seq-Holds id ref sc n s h in
      let step = atoi (Http.get r.header header_step) in
      rw (serve_test-eq id ref sc n r now waited s h)
        (elim (Bool-cases (response_for sc step).1.disconnect) [
          | inl cut_off ↦
              rw (serve_entry, cut_off)
                (append_log-Holds id ref sc (n + 1) (next_seq ref s).0 bumped _)
          | inr stays ↦
              rw (serve_entry, stays)
                (append_log-Holds id ref sc (n + 1) (next_seq ref s).0 bumped _)
        ])

  serve_all-Holds :
      (id : Str) (ref : ℕ) (sc : Script) (requests : List (Request × ℕ × Bool)) (n : ℕ) (s : Store)
      → Holds id ref sc n s
      → Holds id ref sc (n + length requests) (serve_all id requests s)
  serve_all-Holds id ref sc [] n s h = let same : n ≡ n + 0 = omega arith in rw (← same) h
  serve_all-Holds id ref sc ((r, now, waited) ∷ requests) n s h =
      let same : n + 1 + length requests ≡ n + suc (length requests) = omega arith in
      subst (λ m. Holds id ref sc m (serve_all id ((r, now, waited) ∷ requests) s)) same
        (serve_all-Holds id ref sc requests (n + 1) (serve_test times content id r now waited s).0
          (serve_test-Holds id ref sc n r now waited s h))

  put-Holds :
      (id : Str) (sc : Script) (now : ℕ) (s : Store)
      → IsValid s
      → valid_id id ≡ true
      → (ref : ℕ) × Holds id ref sc 0 (handle_put_script id (some sc) now s).0
  unfolding handle_put_script get
  put-Holds id sc now s v good =
      let s' = put id sc now s in
      let held : view s' id ≡ some (fresh sc now) =
        view-put id id sc now s v ∙ rw (eq_str_refl id) refl in
      rw (good, handle_put_script)
        (elim (Option-cases (Maps.lookup id s'.tests)) [
          | inl missing ↦ absurd (ground arith)
          | inr (ref, found) ↦ (
            ref,
            record {
              entry = fresh sc now;
              found = found;
              at = ground arith;
              same = refl;
              served = refl;
            },
          )
        ])

  reply_of_step :
      (id : Str) (ref : ℕ) (t : Test) (k n now : ℕ) (waited : Bool) (r : Request) (s : Store)
      → k + 1 < 2 ^ 63
      → Http.get r.header header_step ≡ itoa (k + 1)
      → (scripted t k).disconnect ≡ false
      → (leb_ℤ (scripted t k).delay_ms (pos 0) ≡ false → waited ≡ true)
      → Holds id ref (script t) n s
      → (serve_test times content id r now waited s).1
        ≡ sent (
            write times
              (stamp (answer_name t k) (n + 1) now (build times content r (scripted t k) now))
              (scripted t k).interim
              (scripted t k).trailers
              now)
  unfolding serve_entry answer new_log_entry
  reply_of_step id ref t k n now waited r s small step stays patient h =
      let number : (next_seq ref s).1 ≡ n + 1 =
        number-next_seq s ref h.entry h.at ∙ ap (λ m. m + 1) h.served in
      let read : atoi (Http.get r.header header_step) ≡ pos (k + 1) =
        rw step (atoi-itoa (k + 1) small) in
      rw (serve_test-eq id ref (script t) n r now waited s h)
        (rw (serve_entry, read, response_for-script t k, number) (rw stays (ground arith)))

  -- Once the client has uploaded a test's script under a well-formed ID to a valid store, every request
  -- for a step, which carries the step's number, is answered as the test says: with the response that
  -- the test names for the step, stamped with its name and the number of the request. Any requests for
  -- the test may have come before it, whatever they were and whatever became of them, and no other
  -- operation on the store. The step's number is below 2^63, the response does not drop the connection,
  -- and the request is not abandoned during its delay, if it has one.
  pub serve_test-uploaded :
      (id : Str) (t : Test) (k uploaded now : ℕ) (waited : Bool) (r : Request)
      (before : List (Request × ℕ × Bool)) (s : Store)
      → IsValid s
      → valid_id id ≡ true
      → k + 1 < 2 ^ 63
      → Http.get r.header header_step ≡ itoa (k + 1)
      → (scripted t k).disconnect ≡ false
      → (leb_ℤ (scripted t k).delay_ms (pos 0) ≡ false → waited ≡ true)
      → (serve_test times content id r now waited
          (serve_all id before (handle_put_script id (some (script t)) uploaded s).0)).1
        ≡ sent (
            write times
              (stamp
                (answer_name t k)
                (length before + 1)
                now
                (build times content r (scripted t k) now))
              (scripted t k).interim
              (scripted t k).trailers
              now)
  serve_test-uploaded id t k uploaded now waited r before s v good small step stays patient =
      let stored = (handle_put_script id (some (script t)) uploaded s).0 in
      let (ref, held) = put-Holds id (script t) uploaded s v good in
      let after = serve_all-Holds id ref (script t) before 0 stored held in
      let none_yet : 0 + length before ≡ length before = omega arith in
      reply_of_step id ref t k (length before) now waited r (serve_all id before stored) small step
        stays patient
        (subst (λ m. Holds id ref (script t) m (serve_all id before stored)) none_yet after)
