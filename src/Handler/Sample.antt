-- ===== src/Handler/Sample.antt =====
-- A handler for the tests: libraries that know little, no filters, and nothing sent yet.
use httpdump.Base.{true, false, none, some, [], codes, pos}
use httpdump.Http.Title.{ato_i}
use httpdump.Filter.Options
use httpdump.Handler.Format.{Calls}
use httpdump.Handler.Base.{Env, Base, failed}

abbrev pub calls : Calls
calls = record {
  parse_int = λ s. pos (ato_i s 10).0;
  gunzip = λ s. none;
  inflate = λ s. some s;
  charsets = record { to_upper = λ s. s; decoder = λ charset. none };
  creates = λ name. true;
  error_text = codes "failed";
  day = λ t. codes "20220417";
  format_time = λ t. codes "2022-04-17";
}

abbrev pub options : Options.Options
options = record {
  host = [];
  uri = [];
  method = [];
  status = [];
  dump_body = [];
  dump_num = 0;
  dump_max = 0;
  n = pos 0;
  num = pos 0;
  cancelled = false;
}

abbrev pub env : Env
env = record {
  calls = calls;
  read_request = λ rb. failed false (codes "bad");
  read_response = λ rb. failed false (codes "bad");
  req_to_json = λ r seq. [];
  rsp_to_json = λ r seq. [];
  ratio = λ seq. true;
  now = λ seq. 0;
}

abbrev pub base : Base
base = record {
  src = codes "a";
  dst = codes "b";
  option = options;
  eof = true;
  level = codes "all";
  force = false;
  limiter = none;
  req_counter = 0;
  rsp_counter = 0;
  using_json = false;
  cache = none;
  sent = [];
}
