-- ===== src/Handler/Fast.antt =====
-- `NewBase` and `Senders` of handler/handler_base.go, and the goroutines and the wait group of
-- `ConnectionHandlerFast` in handler/handler_fast.go. A sender is a state with its two methods, as
-- an interface.
pub mod Senders
pub mod Group
mod Tests
use httpdump.Base.{
  ℕ, zero, suc, ◌-◌, Bool, true, false, not, Option, none, some, List, [], ◌∷◌, ◌++◌, ltb, leb,
  ◌==◌, if◌then◌else◌, length, Bytes, Go, ok, panic, ◌>>=◌,
}
use httpdump.Filter.Options
use httpdump.Tcp.Stream.{Endpoint, to_string}
use httpdump.Handler.Base.{Base, Tag, tag_request, tag_response}

-- The interface `Sender`. `close` gives the texts of its errors.
pub record SenderOps (S : Type 0) : Type 0 where
  pub send : S → Bytes → Bool → Go S
  pub close : S → Go (S × List Bytes)

module _ {S : Type 0} (ops : SenderOps S) where
  -- `Senders.Send`
  unfoldable pub senders_send : List S → Bytes → Bool → Go (List S)
  senders_send [] msg count_discards = ok []
  senders_send (s ∷ ss) msg count_discards = ops.send s msg count_discards >>= λ s'.
      senders_send ss msg count_discards >>= λ ss'. ok (s' ∷ ss')

  -- `Senders.Close`, with the errors that `multierr.Append` puts together.
  unfoldable pub senders_close : List S → Go (List S × List Bytes)
  senders_close [] = ok ([], [])
  senders_close (s ∷ ss) =
      ops.close s >>= λ r. senders_close ss >>= λ rs. ok (r.0 ∷ rs.0, r.1 ++ rs.1)

  -- `Senders` is a sender itself.
  unfoldable pub senders_ops : SenderOps (List S)
  unfolding senders_send senders_close
  senders_ops = record { send = senders_send; close = senders_close }

-- `ConnectionKey`, with the texts of its ends.
pub record ConnectionKey : Type 0 where
  pub src : Endpoint
  pub dst : Endpoint

unfoldable pub key_src : ConnectionKey → Bytes
key_src key = to_string key.src

unfoldable pub key_dst : ConnectionKey → Bytes
key_dst key = to_string key.dst

-- `NewBase`, of the texts of its key's two ends; `using_json` is what `IsUsingJSON` reads of the
-- environment, `resp` counts the flags `-r`.
unfoldable pub new_base :
    Bool → ℕ → Bytes → Bytes → Options.Options → Bool → Bytes → Bool → Option (List Bool) → Base
new_base using_json resp src dst option eof level force limiter = record {
  src = src;
  dst = dst;
  option = option;
  eof = eof;
  level = level;
  force = force;
  limiter = limiter;
  req_counter = 0;
  rsp_counter = 0;
  using_json = using_json;
  cache = (if ltb 1 resp then some [] else none);
  sent = [];
}

-- A goroutine: the number of its call of `handle`, and the direction that it reads.
pub record Reader : Type 0 where
  pub call : ℕ
  pub tag : Tag

-- `ConnectionHandlerFast`: the counter of its wait group, the goroutines that run, and how often
-- `handle` was called.
pub record Fast : Type 0 where
  pub wg : ℕ
  pub running : List Reader
  pub calls : ℕ

unfoldable pub new_fast : Fast
new_fast = record { wg = 0; running = []; calls = 0 }

-- `handle`
unfoldable pub handle : ℕ → Fast → Fast
handle resp h =
    let h' : Fast = record {
      wg = suc h.wg;
      running = record { call = h.calls; tag = tag_request } ∷ h.running;
      calls = suc h.calls;
    } in
    if ltb 0 resp
    then record h' {
      wg = suc h'.wg;
      running = record { call = h.calls; tag = tag_response } ∷ h'.running;
    }
    else h'

-- The goroutine at place `i` returns: its deferred `wg.Done`, which panics below 0.
unfoldable pub drop_at : ℕ → List Reader → List Reader
drop_at i [] = []
drop_at zero (r ∷ rs) = rs
drop_at (suc i) (r ∷ rs) = r ∷ drop_at i rs

unfoldable pub reader_done : ℕ → Fast → Go Fast
reader_done i h =
    if leb h.wg 0 then panic else ok (record h { wg = h.wg - 1; running = drop_at i h.running })

-- Whether `finish`, which waits for the group, returns.
unfoldable pub finish_returns : Fast → Bool
finish_returns h = h.wg == 0
