-- ===== src/Client/Control.antt =====
-- pkg/client/control.go: the requests of the control plane, and of pkg/client/runner.go the parts that
-- use it before the tests: `New` and `handshake`. Sending a request is package `net/http`'s, `encode`
-- and `decode` are `encoding/json`'s, and `parse_url` is url.Parse; an error is its text.
use mecone.Prelude.{
  ℕ, zero, suc, ◌≡◌, ap, ◌∙◌, ◌↔◌, inl, inr, Bool, ◌&&◌, ◌||◌, not, Option, none, some, List, [],
  ◌∷◌, ◌++◌, Str, str, eq_str, ℤ, pos, leb_ℤ, eq_ℤ, eq_ℤ_iff, Result, ok, err, Result-cases,
  Bool-cases, arith, ◌==◌, if◌then◌else◌,
}
use mecone.Strings.{trim_space}
use mecone.Proto.{h1, h2, h2c, check_scheme}
use mecone.Protocol.{Script, Log, version, info_path, scripts_path, logs_path}
use mecone.Strconv.{itoa_int}
use mecone.Client.{Options, with_defaults}

-- the parts of url.URL that a request keeps of its base
pub record BaseUrl : Type 0 where
  pub scheme : Str
  pub user : Str
  pub host : Str
  pub path : Str

-- func parseBase
unfoldable pub parse_base : (Str → Result Str BaseUrl) → Str → Result Str BaseUrl
parse_base parse_url s = elim (parse_url s) [
  | err e ↦ err e
  | ok u ↦
      (if (not (eq_str u.scheme (str "http")) && not (eq_str u.scheme (str "https")))
          || eq_str u.host []
        then err (s ++ str " must be an absolute http or https URL")
        else ok u)
]

-- strings.TrimSuffix(path, "/")
unfoldable pub without_slash : Str → Str
without_slash [] = []
without_slash (c ∷ s) =
    let rest = without_slash s in if c == b'/' && eq_str s [] then [] else c ∷ rest

-- func joinPath
unfoldable pub join_path : BaseUrl → Str → BaseUrl
join_path base p = record base { path = without_slash base.path ++ p }

pub record Request : Type 0 where
  pub method : Str
  pub url : BaseUrl
  pub header : List (Str × Str)
  pub body : Str

pub record Reply : Type 0 where
  pub status : ℤ
  pub status_text : Str
  pub body : Str

-- func (c *Control) newRequest, of the encoded body
unfoldable pub new_request : BaseUrl → Str → Str → Option Str → Request
new_request base method path body = record {
  method = method;
  url = join_path base path;
  header = (str "Cache-Control", str "no-store") ∷ (elim body as (λ _. List (Str × Str)) [
    | none ↦ []
    | some _ ↦ (str "Content-Type", str "application/json") ∷ []
  ]);
  body = elim body [ none ↦ [] | some b ↦ b ];
}

abbrev take : ℕ → Str → Str
take zero s = []
take (suc n) [] = []
take (suc n) (c ∷ s) = c ∷ take n s

module _ (base : BaseUrl) (send : Request → Result Str Reply) where
  -- func (c *Control) do, to the body that is decoded
  unfoldable pub control_do : Str → Str → Option Str → Result Str Str
  control_do method path body = elim (send (new_request base method path body)) [
    | err e ↦ err e
    | ok resp ↦
        (if not (leb_ℤ (pos 200) resp.status) || leb_ℤ (pos 300) resp.status
          then err (
              method
              ++ (str " "
                  ++ (path
                      ++ (str ": "
                          ++ (resp.status_text ++ (str ": " ++ trim_space (take 512 resp.body)))))))
          else ok resp.body)
  ]

  module _ (encode : Script → Result Str Str) (decode_info : Str → Result Str ℤ)
      (decode_log : Str → Result Str Log) where
    -- func (c *Control) Info, of which only the protocol is used
    unfoldable pub info : Result Str ℤ
    info = elim (control_do (str "GET") info_path none) [ err e ↦ err e | ok b ↦ decode_info b ]

    -- func (c *Control) PutScript: its error, or none
    unfoldable pub put_script_to : Str → Script → Option Str
    put_script_to id sc = elim (encode sc) [
      | err e ↦ some e
      | ok b ↦ elim (control_do (str "PUT") (scripts_path ++ id) (some b)) [
        | err e ↦ some e
        | ok _ ↦ none
      ]
    ]

    -- func (c *Control) Log
    unfoldable pub log_of : Str → Result Str Log
    log_of id = elim (control_do (str "GET") (logs_path ++ id) none) [
      | err e ↦ err e
      | ok b ↦ decode_log b
    ]

    -- func (c *Control) DeleteScript: its error, or none
    unfoldable pub delete_script_from : Str → Option Str
    delete_script_from id = elim (control_do (str "DELETE") (scripts_path ++ id) none) [
      | err e ↦ some e
      | ok _ ↦ none
    ]

    -- func (r *Runner) handshake: its error, or none
    unfoldable pub handshake : Option Str
    handshake = elim info [
      | err e ↦ some (str "origin handshake: " ++ e)
      | ok v ↦
          (if eq_ℤ v (pos version)
            then none
            else some (
                str "origin speaks control protocol v"
                ++ (itoa_int v ++ (str "; this client speaks v" ++ itoa_int (pos version)))))
    ]

    -- The client starts exactly with an origin that answers the handshake with a success and speaks
    -- the client's version of the protocol.
    handshake_iff : (handshake ≡ none) ↔ (
        (b : Str) × (control_do (str "GET") info_path none ≡ ok b)
        × (decode_info b ≡ ok (pos version)))
    unfolding handshake info
    handshake_iff = elim (Result-cases (control_do (str "GET") info_path none)) [
      | inr (e, c) ↦ (λ h. absurd (ground arith), λ (b, k, d). absurd (cc))
      | inl (b, c) ↦ elim (Result-cases (decode_info b)) [
        | inr (e, d) ↦ (
          λ h. absurd (ground arith),
          λ (b', k, d'). absurd (let same : b ≡ b' = cc in let q = ap decode_info same in cc),
        )
        | inl (v, d) ↦ elim (Bool-cases (eq_ℤ v (pos version))) [
          | inl e ↦
              let same : v ≡ pos version = (eq_ℤ_iff v (pos version)).0 e in
              (λ h. (b, c, d ∙ ap ok same), λ h. ground arith)
          | inr e ↦ (
            λ h. absurd (ground arith),
            λ (b', k, d').
                let same : b ≡ b' = cc in
                let q = ap decode_info same in
                let it : v ≡ pos version = cc in
                absurd (let r = (eq_ℤ_iff v (pos version)).1 it in cc),
          )
        ]
      ]
    ]

-- func NewClient of pkg/proto/client.go: whether there is a client for the protocol
unfoldable pub has_client : Str → Bool
has_client p = eq_str p h1 || eq_str p h2 || eq_str p h2c

-- the loop of `newClients`: the protocol that does not fit the scheme, or none
unfoldable pub unfit : Str → List Str → Option Str
unfit scheme [] = none
unfit scheme (p ∷ protocols) =
    let rest = unfit scheme protocols in
    if not (check_scheme p scheme) then some p else if not (has_client p) then some p else rest

-- func New: the options with their defaults, and the bases of the target and of the control plane
unfoldable pub new_runner :
    (Str → Result Str BaseUrl) → Str → Str → Options → Result Str (Options × BaseUrl × BaseUrl)
new_runner parse_url target control o =
    let opts = with_defaults o in
    elim (parse_base parse_url target) [
      | err e ↦ err (str "target: " ++ e)
      | ok t ↦ elim (unfit t.scheme opts.protocols) [
        | some p ↦ err p
        | none ↦ elim (parse_base parse_url (if eq_str control [] then target else control)) [
          | err e ↦ err (str "origin control: " ++ e)
          | ok c ↦ ok (opts, t, c)
        ]
      ]
    ]
