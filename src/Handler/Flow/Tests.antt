-- ===== src/Handler/Flow/Tests.antt =====
-- A stream of one packet on a channel of one place.
use httpdump.Base.{◌+◌, ◌*◌, ◌≤◌, false, [], ◌∷◌, Bytes, codes, arith}
use httpdump.Handler.Sample.{env, base}
use httpdump.Handler.Base.{Base}
use httpdump.Handler.Loop.{Requests, handle_request}
use httpdump.Handler.Flow.{reading, Flow, flow, here, next, send, request_loop}
use httpdump.Handler.Flow.Ends.{Comes}
use httpdump.Handler.Flow.Handlers.{handle_request-Comes}

abbrev fresh : Requests
fresh = record { base = base; rb = []; method = [] }

abbrev sent_one : Flow Bytes Requests Base
sent_one = flow [] false (codes "hi" ∷ []) (reading fresh)

handle_request-Comes_example :
    (1 ≤ 2 * 1 + 2)
    × Comes 1 (request_loop env 0) sent_one (handle_request env 0 (codes "hi" ∷ []) base)
handle_request-Comes_example =
    handle_request-Comes env 0 1 (codes "hi" ∷ []) base 1 sent_one (omega arith)
      (next (send (omega arith)) here)
