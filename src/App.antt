-- ===== src/App.antt =====
-- main.go: what the flags come to. A float64 is the fraction that it stands for, with a denominator
-- that is not 0; `strconv.Atoi` and `rest.MaybeURL` are parameters. The start of the servers and
-- the signals are left out.
pub mod Dump
pub mod Ratios
mod Tests
use httpdump.Base.{
  ℕ, zero, suc, ◌+◌, ◌-◌, ◌/◌, ◌%◌, ◌^◌, Bool, true, false, not, ◌||◌, Option, none, some, List, [],
  ◌∷◌, ◌++◌, ltb, ◌==◌, if◌then◌else◌, length, take, drop, Bytes, codes, bytes_eq, index, ℤ, pos,
  negsuc, is_pos,
}
use httpdump.Filter.IntSet.{IntRange}
use httpdump.Filter.Options

pub record Ratio : Type 0 where
  pub num : ℤ
  pub den : ℕ

-- `App`, its fields in their order; a duration is a number, and `handlerOption` is
-- `handler_option`.
pub record App : Type 0 where
  pub config : Bytes
  pub init : Bool
  pub daemonize : Bool
  pub level : Bytes
  pub input : Bytes
  pub ip : Bytes
  pub port : Bytes
  pub n : ℤ
  pub bpf : Bytes
  pub chan : ℕ
  pub out_chan : ℕ
  pub host : Bytes
  pub uri : Bytes
  pub method : Bytes
  pub verbose : Bytes
  pub status : List IntRange
  pub web : Bool
  pub web_port : ℤ
  pub web_context : Bytes
  pub resp : ℕ
  pub force : Bool
  pub curl : Bool
  pub version : Bool
  pub eof : Bool
  pub debug : Bool
  pub dump_body : Bytes
  pub mode : Bytes
  pub output : List Bytes
  pub idle : ℕ
  pub dump_max : ℕ
  pub file : Bytes
  pub pprof : Bytes
  pub rate : Ratio
  pub src_ratio : Ratio
  pub replay_ratio : Ratio
  pub replay_n : ℕ
  pub replay_fraction : Ratio

-- The options that `main` gives to the handler.
unfoldable pub handler_option : App → Options.Options
handler_option app = record {
  host = app.host;
  uri = app.uri;
  method = app.method;
  status = app.status;
  dump_body = app.dump_body;
  dump_num = 0;
  dump_max = app.dump_max;
  n = app.n;
  num = app.n;
  cancelled = false;
}

-- `uint32(a)` of an int.
unfoldable pub to_uint32 : ℤ → ℕ
to_uint32 (pos n) = n % 2 ^ 32
to_uint32 (negsuc n) = 2 ^ 32 - 1 - n % 2 ^ 32

unfoldable pub process_dump_body : (Bytes → Option ℤ) → App → App
process_dump_body atoi o =
    if bytes_eq o.dump_body [] then o else elim (index o.dump_body (codes ":")) [
      | none ↦ o
      | some p ↦
          let prefix = take p o.dump_body in
          record o {
            dump_max = elim (atoi (drop (p + 1) o.dump_body)) [
              | none ↦ o.dump_max
              | some a ↦ to_uint32 a
            ];
            dump_body = (if bytes_eq prefix [] then codes "dump" else prefix);
          }
    ]

-- `r <= 0` and `r > 1`.
unfoldable pub not_positive : Ratio → Bool
not_positive r = not (is_pos r.num)

unfoldable pub above_one : Ratio → Bool
above_one r = elim r.num [ pos n ↦ ltb r.den n | negsuc n ↦ false ]

-- `int(r)` of a ratio that is not negative, and what is left of it.
unfoldable pub whole_part : Ratio → ℕ
whole_part r = elim r.num [ pos n ↦ n / r.den | negsuc n ↦ 0 ]

unfoldable pub fraction : Ratio → Ratio
fraction r = record {
  num = elim r.num [ pos n ↦ pos (n % r.den) | negsuc n ↦ negsuc n ];
  den = r.den;
}

-- `PostProcess`; `none` is `log.Fatalf`.
unfoldable pub post_process : (Bytes → Option ℤ) → App → Option App
post_process atoi o =
    if not_positive o.src_ratio || above_one o.src_ratio
    then none
    else if not_positive o.replay_ratio
    then none
    else some (
        process_dump_body atoi (record o {
          replay_n = whole_part o.replay_ratio;
          replay_fraction = fraction o.replay_ratio;
        }))

-- The senders that `run` makes: a relay to an address, a file, or the web page.
pub data SenderKind : Type 0 where
  relay : Bytes → SenderKind
  file_output : Bytes → SenderKind
  page : SenderKind

unfoldable pub output_senders : (Bytes → Option Bytes) → List Bytes → List SenderKind
output_senders maybe_url [] = []
output_senders maybe_url (out ∷ outs) =
    elim (maybe_url out) [ some addr ↦ relay addr | none ↦ file_output out ]
    ∷ output_senders maybe_url outs

unfoldable pub create_senders : (Bytes → Option Bytes) → App → List SenderKind
create_senders maybe_url o =
    output_senders maybe_url (if length o.output == 0 then codes "stdout:log" ∷ [] else o.output)
    ++ (if o.web then page ∷ [] else [])

pub data AssemblerKind : Type 0 where
  fast : AssemblerKind
  standard : AssemblerKind

unfoldable pub create_assembler : App → AssemblerKind
create_assembler o = if bytes_eq o.mode (codes "fast") then fast else standard

-- What `run` waits for before it closes the senders: the end of the loop over the packets of a
-- capture file, or the context.
pub data Waiting : Type 0 where
  loop_ends : Waiting
  context_done : Waiting

-- `pcap_file` is what `CreatePacketsChan` says, where it is called.
unfoldable pub waits_for : App → Bool → Waiting
waits_for o pcap_file =
    if bytes_eq o.file [] then (if pcap_file then loop_ends else context_done) else context_done
