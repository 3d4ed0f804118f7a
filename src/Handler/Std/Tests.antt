-- ===== src/Handler/Std/Tests.antt =====
-- Runs of the standard readers at a stream that holds a request in each byte.
use httpdump.Base.{ℕ, ◌≡◌, refl, ap, true, some, [], ◌∷◌, length, Bytes, codes, Go, pos, arith}
use httpdump.Handler.Format.{Req, Rsp}
use httpdump.Handler.Sample.{env, base}
use httpdump.Handler.Std.{StdEnv, Std, Read, got, ended, run_requests, run}
use httpdump.Handler.Std.Repeats.{Compared, fresh_requests, run_requests-repeats}
use httpdump.Handler.Std.Ends.{Takes, run-ends}

abbrev std : Std
std = record { base = record base { level = codes "url" }; req_buffer = []; rsp_buffer = [] }

abbrev request : Req
request = record {
  method = codes "GET";
  host = codes "h";
  path = codes "/p";
  request_uri = codes "/p";
  proto = codes "HTTP/1.1";
  header = [];
  content_length = pos 0;
  body = [];
}

abbrev response : Rsp
response = record {
  status_line = codes "200 OK";
  raw_headers = [];
  status_code = 200;
  header = [];
  content_length = pos 0;
  body = [];
}

abbrev read_bytes : {A : Type 0} → A → Bytes → Read A
read_bytes a [] = ended true (codes "EOF")
read_bytes a (x ∷ rest) = got a rest

abbrev std_env : StdEnv
std_env = record {
  env = env;
  read_request = read_bytes request;
  read_response = read_bytes response;
}

abbrev clock : ℕ → ℕ
clock n = 0

read_bytes-Takes : {A : Type 0} (a : A) → Takes (read_bytes a)
read_bytes-Takes a [] b rest e = cc
read_bytes-Takes a (x ∷ buf) b rest e = omega (arith, ap length (rest_of e))
  where
    rest_of : {A : Type 0} {b c : A} {r s : Bytes} → got b r ≡ got c s → r ≡ s
    rest_of e = cc

run_requests-repeats_example :
    Compared [] [] []
      (fresh_requests std_env clock 3 std.base (1 ∷ 2 ∷ []))
      (run_requests std_env clock 3 std (1 ∷ 2 ∷ []))
run_requests-repeats_example =
    run_requests-repeats std_env clock (read_bytes-Takes request) std (1 ∷ 2 ∷ []) (refl, refl)

run-ends_example : (m : Go Std) × (run std_env clock 1 std (codes "GET / HTTP/1.1") ≡ some m)
run-ends_example =
    run-ends std_env clock 1 std (codes "GET / HTTP/1.1") (read_bytes-Takes request)
      (read_bytes-Takes response)
