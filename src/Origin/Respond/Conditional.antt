-- ===== src/Origin/Respond/Conditional.antt =====
-- pkg/origin/respond.go: theorems about the answers to conditional requests.
use mecone.Prelude.{
  ℕ, ◌≡◌, ◌≢◌, ◌↔◌, ◌⊎◌, inl, inr, true, false, ◌&&◌, not, [], Str, str, eq_str_iff, eq_ℤ, eq_ℤ_iff,
  Bool-cases, arith,
}
use mecone.Strings.{join}
use mecone.Http
use mecone.Http.{Header}
use mecone.Protocol.{Response, response_body}
use mecone.Protocol.Lines.{Times}
use mecone.Origin.Etags.{etag_list_matches}
use mecone.Origin.Respond.{
  Request, Content, ok_status, not_modified_status, unchanged, not_modified, scripted_header,
  scripted_status, build,
}

-- The values of the If-None-Match fields of a request, as one list.
abbrev pub if_none_match : Request → Str
if_none_match r = join (Http.values r.header (str "If-None-Match")) (str ",")

module _ (times : Times) where
  -- The condition of a request holds: its tags name the response's, or it has no tags and the
  -- response has not changed since its date.
  abbrev pub ConditionHolds : Request → Header → Type 0
  ConditionHolds r h =
      (if_none_match r ≢ [])
        × (Http.get h (str "Etag") ≢ [])
        × (etag_list_matches (if_none_match r) (Http.get h (str "Etag")) ≡ true)
      ⊎ (if_none_match r ≡ [])
        × (unchanged (times.parse_time (Http.get r.header (str "If-Modified-Since")))
              (times.parse_time (Http.get h (str "Last-Modified")))
            ≡ true)

  not_modified_iff :
      (r : Request) (h : Header)
      → (not_modified times r h ≡ true)
        ↔ (((r.method ≡ str "GET") ⊎ (r.method ≡ str "HEAD")) × ConditionHolds r h)
  unfolding not_modified
  not_modified_iff r h = ground (
    arith,
    eq_str_iff r.method (str "GET"),
    eq_str_iff r.method (str "HEAD"),
    eq_str_iff (if_none_match r) [],
    eq_str_iff (Http.get h (str "Etag")) [],
  )

  -- What makes the origin answer 304.
  pub record Answers304 (r : Request) (resp : Response) (now : ℕ) : Type 0 where
    pub applies : resp.ignore_conditionals ≡ false
    pub status : scripted_status resp ≡ ok_status
    pub method : (r.method ≡ str "GET") ⊎ (r.method ≡ str "HEAD")
    pub condition : ConditionHolds r (scripted_header times resp now)

  module _ (content : Content) (r : Request) (resp : Response) (now : ℕ) where
    -- A response that does not serve ranges is a 304 with no body if the test leaves conditional
    -- requests to the origin, the scripted status is 200, and a GET's or HEAD's condition holds, where
    -- a list of entity tags takes precedence over a date. In every other case it is sent as scripted.
    pub build-no_ranges :
        resp.ranges ≡ false
        → (Answers304 r resp now
            → ((build times content r resp now).status ≡ not_modified_status)
              × ((build times content r resp now).body ≡ []))
          × (¬ Answers304 r resp now
              → build times content r resp now ≡ record {
                header = scripted_header times resp now;
                status = scripted_status resp;
                body = response_body resp;
              })
    unfolding build
    build-no_ranges plain = (
      λ a.
          let holds =
            (not_modified_iff r (scripted_header times resp now)).1 (a.method, a.condition) in
          (
            ground (arith, eq_ℤ_iff (scripted_status resp) ok_status, a.applies, a.status, holds),
            ground (arith, eq_ℤ_iff (scripted_status resp) ok_status, a.applies, a.status, holds),
          ),
      λ other.
          elim (Bool-cases (
            not resp.ignore_conditionals
            && eq_ℤ (scripted_status resp) ok_status
            && not_modified times r (scripted_header times resp now))) [
              | inr scripted ↦ ground arith
              | inl yes_304 ↦
                  let (method, condition) =
                    (not_modified_iff r (scripted_header times resp now)).0 (ground arith) in
                  absurd (
                    other (record {
                      applies = ground arith;
                      status = ground (arith, eq_ℤ_iff (scripted_status resp) ok_status);
                      method = method;
                      condition = condition;
                    }))
            ],
    )
