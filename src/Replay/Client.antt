-- ===== src/Replay/Client.antt =====
-- `HTTPClient.Send` of replay/httpclient.go up to the answer. The parser of requests, `path.Join`,
-- `ss.AnyOf` and the exchange with the server are parameters.
use httpdump.Base.{
  ℕ, ◌≡◌, inl, inr, refl, ◌∙◌, subst, Bool, true, false, not, ◌&&◌, ◌||◌, Option, none, some, List,
  [], ◌∷◌, if◌then◌else◌, Bytes, codes, bytes_eq, bytes_eq_refl, Bool-cases, Option-cases,
}
use httpdump.Filter.Options.{contains_text}
use httpdump.Handler.Format.{Header, header_get, header_set}

-- `http.Request`, the fields that `Send` reads or writes; the URL is split into its host and its
-- path.
pub record Request : Type 0 where
  pub method : Bytes
  pub url_host : Bytes
  pub path : Bytes
  pub raw_path : Bytes
  pub host : Bytes
  pub header : Header
  pub close : Bool
  pub request_uri : Bytes

-- `HTTPClient` with its configuration: the host and the path of `BaseURL`.
pub record Client : Type 0 where
  pub base_host : Bytes
  pub base_path : Bytes
  pub methods : Bytes

-- The answer of the server, and `SendResponse` without its times.
pub record Answer : Type 0 where
  pub body : Bytes
  pub status : ℕ

pub record SendResponse : Type 0 where
  pub method : Bytes
  pub url : Bytes
  pub response_body : Bytes
  pub status_code : ℕ

-- The calls: `http.ReadRequest` (`none` is its error), `ss.AnyOf`, `path.Join`, `URL.String`, and
-- `Client.Do` with whether it gives an error.
pub record Calls : Type 0 where
  pub read_request : Bytes → Option Request
  pub any_of : Bytes → List Bytes → Bool
  pub join : Bytes → Bytes → Bytes
  pub url_text : Request → Bytes
  pub exchange : Request → Option Answer × Bool

-- What `Send` comes to: an error of the parser, no request, or a request that is sent, with the
-- results of the call and whether there is an error.
pub data Outcome : Type 0 where
  unread : Outcome
  skipped : Outcome
  sent : Request → SendResponse → Bool → Outcome

abbrev pub mark : Bytes
mark = codes "X-Goreplay-Output"

unfoldable pub is_skipped : Calls → Client → Request → Bool
is_skipped calls c req =
    calls.any_of req.method (codes "CONNECT" ∷ codes "OPTIONS" ∷ [])
    || (not (bytes_eq c.methods []) && not (contains_text c.methods req.method)
        || bytes_eq (header_get req.header mark) (codes "1"))

-- The request as it goes out.
unfoldable pub directed : Calls → Client → Request → Request
directed calls c req = record {
  method = req.method;
  url_host = c.base_host;
  path = calls.join c.base_path req.path;
  raw_path = req.raw_path;
  host = c.base_host;
  header = header_set req.header mark (codes "1");
  close = false;
  request_uri = [];
}

-- `SendResponse` with the answer, where there is one.
unfoldable pub answered : Calls → Request → Option Answer → SendResponse
answered calls req none = record {
  method = req.method;
  url = calls.url_text req;
  response_body = [];
  status_code = 0;
}
answered calls req (some a) = record {
  method = req.method;
  url = calls.url_text req;
  response_body = a.body;
  status_code = a.status;
}

unfoldable pub client_send : Calls → Client → Bytes → Outcome
client_send calls c text = elim (calls.read_request text) [
  | none ↦ unread
  | some req ↦
      if is_skipped calls c req
      then skipped
      else let out = directed calls c req in
        let rsp = calls.exchange out in sent out (answered calls out rsp.0) rsp.1
]

header_get-header_set :
    (h : Header) (name value : Bytes) → header_get (header_set h name value) name ≡ value
unfolding header_get header_set
header_get-header_set [] name value = rw (bytes_eq_refl name) refl
header_get-header_set ((key, []) ∷ h) name value = elim (Bool-cases (bytes_eq key name)) [
  | inl same ↦ simp (header_set, same, header_get) refl
  | inr other ↦ simp (header_set, other, header_get) (header_get-header_set h name value)
]
header_get-header_set ((key, v ∷ vs) ∷ h) name value = elim (Bool-cases (bytes_eq key name)) [
  | inl same ↦ simp (header_set, same, header_get) refl
  | inr other ↦ simp (header_set, other, header_get) (header_get-header_set h name value)
]

marked-skipped :
    (calls : Calls) (c : Client) (req : Request)
    → header_get req.header mark ≡ codes "1"
    → is_skipped calls c req ≡ true
unfolding is_skipped
marked-skipped calls c req h = simp (h, bytes_eq_refl (codes "1")) (absorb _ _)
  where
    absorb : (a b : Bool) → (a || (b || true)) ≡ true
    absorb true b = refl
    absorb false true = refl
    absorb false false = refl

-- A request that `Send` has sent is not sent again: what goes out carries the header
-- `X-Goreplay-Output: 1`, so that a client, whatever its address and its methods, skips every text
-- in which the parser finds a request with the value of that header that the sent one has, whatever
-- else is in it.
pub client_send-once :
    (calls : Calls) (c c' : Client) (text again : Bytes) (out req' : Request) (rsp : SendResponse)
    (e : Bool)
    → client_send calls c text ≡ sent out rsp e
    → calls.read_request again ≡ some req'
    → header_get req'.header mark ≡ header_get out.header mark
    → client_send calls c' again ≡ skipped
unfolding client_send
client_send-once calls c c' text again out req' rsp e h k passed =
    elim (Option-cases (calls.read_request text)) [
      | inl nothing ↦ cc (simp (client_send, nothing) at h)
      | inr (req, found) ↦ elim (Bool-cases (is_skipped calls c req)) [
        | inl skips ↦ cc (simp (client_send, found, skips) at h)
        | inr goes ↦
            let same : directed calls c req ≡ out = out_of (simp (client_send, found, goes) at h) in
            let marked : header_get out.header mark ≡ codes "1" =
              subst (λ q. header_get q.header mark ≡ codes "1") same
                (unfold directed in header_get-header_set req.header mark (codes "1")) in
            simp (client_send, k, marked-skipped calls c' req' (passed ∙ marked)) refl
      ]
    ]
  where
    out_of : {a b : Request} {x y : SendResponse} {p q : Bool} → sent a x p ≡ sent b y q → a ≡ b
    out_of e = cc
