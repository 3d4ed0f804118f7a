-- ===== src/Replay/Tests.antt =====
-- Runs of the payload reader and of the replay at concrete lines.
use httpdump.Base.{
  ℕ, arith, ◌+◌, ◌≤◌, ◌≡◌, ◌↔◌, refl, Bool, true, false, ◌||◌, Option, none, some, List, [], ◌∷◌,
  ◌++◌, length, replicate, if◌then◌else◌, Bytes, codes, bytes_eq, index, has_prefix, ok, ◌>>=◌,
}
use httpdump.Filter.Options.{contains_text}
use httpdump.Handler.Format.{header_get, header_set}
use httpdump.Http.Title
use httpdump.Replay.Title.{parse_title, of_title, parse_title-same}
use httpdump.Replay.Payload.{
  Msg, consume_payload_lines, consume_line, holds, is_nil, try_parse_payload,
}
use httpdump.Replay.Lines.{lines_of}
use httpdump.Replay.Whole.{replay_options, keep}
use httpdump.Replay.Threads.{Run, here, wait, started, finished}
use httpdump.Replay.Threads.Ends.{read_payloads-ends}
use httpdump.Replay.Threads.Wedged.{fails_late, read_payloads-returns}
use httpdump.Replay.Client.{
  Request, Client, Calls, SendResponse, sent, skipped, mark, client_send, is_skipped, directed,
  answered, client_send-once,
}
use httpdump.Replay.Serve.{
  Config, Log, arrives, serve, plan, process_tail, replace_all, replace_from,
}
use httpdump.Replay.Serve.Loop.{serve-closed}
use httpdump.Replay.Files.{Tail, tail_files}
use httpdump.Replay.Files.Tailers.{AreDistinct, is_tailed, opened, tail_files-tailed}

abbrev file : Bytes
file =
    codes "#1" ++ 10 ∷ (codes "GET /a" ++ 10 ∷ (codes "A: b" ++ 10 ∷ (codes "GET /b" ++ 10 ∷ [])))

abbrev is_get : Bytes → Bool
is_get line = has_prefix line (codes "GET ")

parse_title-same_example :
    Title.parse_request_title (codes "GET /a HTTP/1.1" ++ Title.crlf)
    ≡ (parse_title (codes "GET /a HTTP/1.1" ++ Title.crlf) >>= λ t. ok (of_title t))
parse_title-same_example = parse_title-same (codes "GET /a HTTP/1.1" ++ Title.crlf)

abbrev kept_all : (s : List Bytes) (m : Msg) → (s' : List Bytes) × (keep s m ≡ some s')
kept_all s m = (s ++ m.payload ∷ [], refl)

read_payloads-ends_example :
    (0 ≤ length (lines_of file) + 2)
    × (s' : List Bytes) × (m : ℕ) × (consume_payload_lines keep
          (replay_options is_get)
          (lines_of file)
          []
        ≡ some s')
    × Run keep
        (replay_options is_get)
        m
        (started keep (replay_options is_get) file [])
        (finished keep (replay_options is_get) (some s'))
    × (wait file (finished keep (replay_options is_get) (some s')) ≡ some false)
read_payloads-ends_example =
    read_payloads-ends keep (replay_options is_get) kept_all file [] 0
      (started keep (replay_options is_get) file []) (omega arith) here

abbrev refuse : List Bytes → Msg → Option (List Bytes)
refuse s m = none

read_payloads-returns_example :
    ((n : ℕ) × (v : Option (List Bytes)) × Run refuse
        (replay_options is_get)
        n
        (started refuse (replay_options is_get) file [])
        (finished refuse (replay_options is_get) v))
    ↔ (fails_late refuse
          (replay_options is_get)
          (lines_of file)
          (record { b = record { title = []; payload = [] }; started = false; last = [] })
          []
        ≡ true)
read_payloads-returns_example =
    read_payloads-returns refuse (replay_options is_get) file [] (omega arith)

-- The second title makes the handler give an error, and it is not the last line of a longer file.
hangs_test :
    fails_late refuse
      (replay_options is_get)
      (codes "GET /a" ∷ codes "GET /b" ∷ codes "A: b" ∷ [])
      (record { b = record { title = []; payload = [] }; started = false; last = [] })
      []
    ≡ false
unfolding consume_line holds is_nil try_parse_payload has_prefix
hangs_test = refl

abbrev client : Client
client = record { base_host = codes "b"; base_path = []; methods = codes "GET" }

abbrev asked : Request
asked = record {
  method = codes "GET";
  url_host = [];
  path = codes "/a";
  raw_path = [];
  host = codes "a";
  header = [];
  close = true;
  request_uri = codes "/a";
}

abbrev marked : Request
marked = record {
  method = codes "GET";
  url_host = codes "b";
  path = codes "/a";
  raw_path = [];
  host = codes "b";
  header = (mark, codes "1" ∷ []) ∷ [];
  close = false;
  request_uri = [];
}

-- What the server receives of it: the parser has set the request's URI, and its URL has no host.
abbrev received : Request
received = record marked { url_host = []; request_uri = codes "/a" }

-- A parser that reads the one text as what was asked, and any other as what the server receives.
abbrev server : Calls
server = record {
  read_request = λ text. some (if has_prefix text (codes "GET /a") then asked else received);
  any_of = λ method methods. false;
  join = λ base p. p;
  url_text = λ r. r.path;
  exchange = λ r. (some (record { body = []; status = 200 }), false);
}

abbrev answer : SendResponse
answer = record { method = codes "GET"; url = codes "/a"; response_body = []; status_code = 200 }

sends_test : client_send server client (codes "GET /a") ≡ sent marked answer false
unfolding client_send is_skipped directed answered header_get header_set has_prefix bytes_eq
    contains_text index
sends_test = refl

client_send-once_example : client_send server client (codes "GET /b") ≡ skipped
unfolding has_prefix
client_send-once_example =
    client_send-once server client client (codes "GET /a") (codes "GET /b") marked received answer
      false sends_test refl refl

abbrev config : Config
config = record { file = []; poll = false; client = some client; replay_n = 2 }

abbrev never : ℕ → ℕ
never k = 0

abbrev no_log : Log
no_log = record { handled = 0; outcomes = [] }

serve-closed_example :
    serve server never config (arrives file ∷ [] ++ replicate 5 (arrives [])) no_log
    ≡ (false, (serve server never config (arrives file ∷ []) no_log).1)
serve-closed_example = serve-closed server never config (arrives file ∷ []) 5 no_log refl

plan_test :
    (plan (λ f. false) (record config { file = codes "a.gor:tail:poll" })).0
    ≡ process_tail (codes "a.gor") true
unfolding plan replace_all replace_from has_prefix bytes_eq
plan_test = refl

abbrev all_open : Bytes → Bool
all_open name = true

abbrev tail : Tail
tail = record { from_beginning = false; tailers = []; offsets = [] }

tail_files-tailed_example :
    AreDistinct (tail_files all_open (codes "a" ∷ codes "b" ∷ codes "a" ∷ []) tail).tailers
    × (is_tailed
          (codes "b")
          (tail_files all_open (codes "a" ∷ codes "b" ∷ codes "a" ∷ []) tail).tailers
        ≡ (is_tailed (codes "b") tail.tailers
            || opened all_open (codes "a" ∷ codes "b" ∷ codes "a" ∷ []) (codes "b")))
tail_files-tailed_example =
    tail_files-tailed all_open (codes "a" ∷ codes "b" ∷ codes "a" ∷ []) tail (codes "b") tt
