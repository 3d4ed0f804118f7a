-- ===== src/Filter/Options.antt =====
-- `Option` of handler/option.go, the fields that its methods read. The random number of
-- `PermitRatio` is a parameter: whether the ratio permits.
pub mod Budget
use httpdump.Base.{
  ℕ, zero, suc, ◌-◌, ◌^◌, Bool, true, false, not, ◌&&◌, ◌||◌, Option, none, some, List, [], ◌∷◌,
  ltb, leb, ◌==◌, if◌then◌else◌, Bytes, bytes_eq, index, ℤ, pos, negsuc, is_neg, is_pos,
}
use httpdump.Filter.Wildcard.{wildcard_match}
use httpdump.Filter.IntSet.{IntRange, contains}

-- `n` and `num` are int32, `dump_num` and `dump_max` uint32. `cancelled` is whether `CtxCancel` was
-- called.
pub record Options : Type 0 where
  pub host : Bytes
  pub uri : Bytes
  pub method : Bytes
  pub status : List IntRange
  pub dump_body : Bytes
  pub dump_num : ℕ
  pub dump_max : ℕ
  pub n : ℤ
  pub num : ℤ
  pub cancelled : Bool

unfoldable pub can_dump : Options → Bool
can_dump o =
    if bytes_eq o.dump_body [] then false else leb o.dump_max 0 || ltb o.dump_num o.dump_max

unfoldable pub contains_text : Bytes → Bytes → Bool
contains_text s sub = elim (index s sub) [ none ↦ false | some i ↦ true ]

unfoldable pub permits_method : Options → Bytes → Bool
permits_method o method = bytes_eq o.method [] || contains_text o.method method

unfoldable pub permits_code : Options → ℤ → Bool
permits_code o code = contains o.status code

-- `wildcardMatch`, whose loop always returns.
unfoldable pub matches : Bytes → Bytes → Bool
matches str pattern = elim (wildcard_match str pattern) [ none ↦ false | some b ↦ b ]

unfoldable pub permits_uri : Options → Bytes → Bool
permits_uri o uri = bytes_eq o.uri [] || matches uri o.uri

unfoldable pub permits_host : Options → Bytes → Bool
permits_host o host = bytes_eq o.host [] || matches host o.host

-- `x - 1` on int32.
unfoldable pub pred32 : ℤ → ℤ
pred32 (pos zero) = negsuc 0
pred32 (pos (suc k)) = pos k
pred32 (negsuc k) = if k == 2 ^ 31 - 1 then pos (2 ^ 31 - 1) else negsuc (suc k)

unfoldable pub reached_n : Options → Bool × Options
reached_n o =
    let reached = is_pos o.n && not (is_pos o.num) in
    (reached, (if reached then record o { cancelled = true } else o))

unfoldable pub permit_n : Options → Bool × Options
permit_n o =
    if not (is_pos o.n)
    then (true, o)
    else (not (is_neg (pred32 o.num)), record o { num = pred32 o.num })

-- `PermitsReq`, which counts a request only where its host and its URI are permitted.
unfoldable pub permits_req : Options → Bytes → Bytes → Bool → Bool × Options
permits_req o host uri ratio =
    if permits_host o host && permits_uri o uri
    then ((permit_n o).0 && ratio, (permit_n o).1)
    else (false, o)
