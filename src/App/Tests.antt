-- ===== src/App/Tests.antt =====
-- Runs of the flags at concrete values.
use httpdump.Base.{
  if◌then◌else◌, ◌≡◌, refl, false, Option, none, some, List, [], ◌∷◌, min, length, Bytes, codes,
  bytes_eq, itoa, digits, count_byte, ℤ, pos, arith,
}
use httpdump.Handler.Sample.{calls}
use httpdump.App.{App, Ratio, handler_option, process_dump_body}
use httpdump.App.Dump.{dumped, dumped-budget}

abbrev one : Ratio
one = record { num = pos 1; den = 1 }

abbrev app : App
app = record {
  config = [];
  init = false;
  daemonize = false;
  level = codes "all";
  input = codes "any";
  ip = [];
  port = [];
  n = pos 0;
  bpf = [];
  chan = 10240;
  out_chan = 40960;
  host = [];
  uri = [];
  method = [];
  verbose = [];
  status = [];
  web = false;
  web_port = pos 0;
  web_context = [];
  resp = 1;
  force = false;
  curl = false;
  version = false;
  eof = false;
  debug = false;
  dump_body = codes "solr:2";
  mode = codes "fast";
  output = [];
  idle = 240;
  dump_max = 0;
  file = [];
  pprof = [];
  rate = record { num = pos 0; den = 1 };
  src_ratio = one;
  replay_ratio = record { num = pos 3; den = 2 };
  replay_n = 0;
  replay_fraction = record { num = pos 0; den = 1 };
}

-- A reader of digits: it knows the text of 2.
abbrev atoi : Bytes → Option ℤ
atoi text = if bytes_eq text (codes "2") then some (pos 2) else none

abbrev bodies : List (Bytes × Bytes)
bodies = (codes "f", codes "x") ∷ (codes "g", codes "y") ∷ (codes "h", codes "z") ∷ []

dumped-budget_example :
    (dumped calls bodies (handler_option (process_dump_body atoi app))).0 ≡ min 2 (length bodies)
unfolding count_byte itoa digits bytes_eq
dumped-budget_example =
    dumped-budget atoi app calls (codes "solr") 2 bodies refl refl refl (omega arith) (omega arith)
      (λ fn. refl) (omega arith, (omega arith, (omega arith, tt)))
