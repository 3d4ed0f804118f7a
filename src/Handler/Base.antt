-- ===== src/Handler/Base.antt =====
-- `Base` of handler/handler_base.go: counters, senders, errors. The parsers of httpport and the
-- marshalling of a request or a response to JSON are parameters; the limiter is the list of the
-- answers that it still gives, `none` for nil, and `ratio` is what `PermitRatio` answers, by
-- number.
use httpdump.Base.{
  ℕ, ◌+◌, ◌%◌, ◌^◌, Bool, true, false, not, Option, none, some, List, [], ◌∷◌, ◌++◌, if◌then◌else◌,
  Bytes, codes, itoa, Go, ok, panic, ◌>>=◌,
}
use httpdump.Filter.Options
use httpdump.Filter.Options.{permits_req}
use httpdump.Handler.Pairs.{Sent, SendArgs, send}
use httpdump.Handler.Format.{Req, Rsp, Calls, print_request, print_response}

-- What a parser gives: a message, or an error that is an end of file or not, with its text.
pub data Parsed (A : Type 0) : Type 0 where
  parsed : A → Parsed A
  failed : Bool → Bytes → Parsed A

pub record Env : Type 0 where
  pub calls : Calls
  pub read_request : Bytes → Parsed Req
  pub read_response : Bytes → Parsed Rsp
  pub req_to_json : Req → ℕ → Bytes
  pub rsp_to_json : Rsp → ℕ → Bytes
  pub ratio : ℕ → Bool
  pub now : ℕ → ℕ

-- `src` and `dst` are those of the key; `eof`, `level` and `force` are fields of the options.
-- `cache` is `none` for nil. `sent` is what the origin's `Send` was called with.
pub record Base : Type 0 where
  pub src : Bytes
  pub dst : Bytes
  pub option : Options.Options
  pub eof : Bool
  pub level : Bytes
  pub force : Bool
  pub limiter : Option (List Bool)
  pub req_counter : ℕ
  pub rsp_counter : ℕ
  pub using_json : Bool
  pub cache : Option (List SendArgs)
  pub sent : List Sent

-- `Counter.Incr`, on int32 seen as its 32 bits.
unfoldable pub incr : ℕ → ℕ
incr counter = (counter + 1) % 2 ^ 32

unfoldable pub limit_allow : Base → Bool × Base
limit_allow h = elim h.limiter [
  | none ↦ (true, h)
  | some [] ↦ (false, h)
  | some (a ∷ answers) ↦ (a, record h { limiter = some answers })
]

-- `fmt.Sprintf("%d-%s-%s", seq, h.key.Src(), h.key.Dst())`
unfoldable pub pair_key : Base → ℕ → Bytes
pair_key h seq = itoa seq ++ (codes "-" ++ (h.src ++ (codes "-" ++ h.dst)))

-- `sender.Send(msg, true)` of the sender that `processRequest` and `processResponse` choose.
unfoldable pub send_on : Env → Base → ℕ → Bool → Bytes → Base
send_on env h seq req msg = elim h.cache [
  | none ↦ record h { sent = h.sent ++ record { msg = msg; count_discards = true } ∷ [] }
  | some cache ↦
      let out =
        send
          (record {
            key = pair_key h seq;
            msg = msg;
            count_discards = true;
            req = req;
            time = env.now seq;
          })
          cache in
      record h { cache = some out.0; sent = h.sent ++ out.1 }
]

-- `processRequest(false, r, o, startTime)`
unfoldable pub process_request : Env → Base → Req → ℕ → Go Base
process_request env h r start_time =
    let seq = incr h.req_counter in
    let permit = permits_req h.option r.host r.request_uri (env.ratio seq) in
    let h' = record h { req_counter = seq; option = permit.1 } in
    if not permit.0
    then ok h'
    else if h.using_json
    then ok (send_on env h' seq true (env.req_to_json r seq ++ codes "\n"))
    else (print_request env.calls h'.option h.level h.force h.src h.dst r start_time seq >>= λ text.
        ok (send_on env (record h' { option = text.1 }) seq true text.0))

-- `processResponse(false, r, o, endTime)`
unfoldable pub process_response : Env → Base → Rsp → ℕ → Go Base
process_response env h r end_time =
    let seq = incr h.rsp_counter in
    let h' = record h { rsp_counter = seq } in
    if not (env.ratio seq)
    then ok h'
    else if h.using_json
    then ok (send_on env h' seq false (env.rsp_to_json r seq ++ codes "\n"))
    else (print_response env.calls h.option h.level h.force h.src h.dst r end_time seq >>= λ text.
        ok (send_on env (record h' { option = text.1 }) seq false text.0))

-- The direction that an error is told of: `Tag`.
pub data Tag : Type 0 where
  tag_request : Tag
  tag_response : Tag

unfoldable pub tag_text : Tag → Bytes
tag_text tag_request = codes "REQ"
tag_text tag_response = codes "RSP"

unfoldable pub counted : Base → Tag → ℕ
counted h tag_request = h.req_counter
counted h tag_response = h.rsp_counter

-- `handleError`; the line on the standard error is left out.
unfoldable pub handle_error : Env → Base → Bool → Bytes → ℕ → Tag → Base
handle_error env h is_eof text t tag =
    if h.using_json
    then h
    else let seq = counted h tag in
      let place =
        itoa seq
        ++ (codes " "
            ++ (tag_text tag
                ++ (codes " "
                    ++ (h.src
                        ++ (codes "-" ++ (h.dst ++ (codes " " ++ env.calls.format_time t))))))) in
      if is_eof
      then (if h.eof
          then record h {
            sent =
                h.sent ++ record { msg = codes "\n### EOF#" ++ place; count_discards = false } ∷ [];
          }
          else h)
      else record h {
        sent =
            h.sent
            ++ record {
              msg = codes "\n### ERR#" ++ (place ++ (codes ", error: " ++ text));
              count_discards = false;
            }
              ∷ [];
      }

unfoldable pub deal_request : Env → Base → Bytes → ℕ → Go Base
deal_request env h rb t = elim (env.read_request rb) [
  | failed is_eof text ↦ ok (handle_error env h is_eof text t tag_request)
  | parsed r ↦ process_request env h r t
]

-- `dealResponse`, whose recover leaves the handler as the panic finds it: with the response
-- counted.
unfoldable pub recovered : Base → Go Base → Go Base
recovered h (ok h') = ok h'
recovered h panic = ok h

unfoldable pub deal_response : Env → Base → Bytes → ℕ → Go Base
deal_response env h rb t = elim (env.read_response rb) [
  | failed is_eof text ↦ ok (handle_error env h is_eof text t tag_response)
  | parsed r ↦
      recovered (record h { rsp_counter = incr h.rsp_counter }) (process_response env h r t)
]
