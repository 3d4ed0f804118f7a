-- ===== src/Capture/Ranges.antt =====
-- Where the loop over a range of addresses ends.
use httpdump.Base.{
  ℕ, zero, suc, ◌+◌, ◌-◌, ◌%◌, ◌^◌, ◌<◌, ◌≡◌, refl, ap, ◌∙◌, true, leb, Bytes, codes, arith,
}
use httpdump.Capture.Address.{to_net_ip}
use httpdump.Capture.Device.{text, endless, add_term, host_loop}

-- The terms of `n` addresses from `ip` on.
unfoldable pub host_terms : ℕ → ℕ → Bytes → Bytes
host_terms zero ip acc = acc
host_terms (suc n) ip acc = host_terms n (ip + 1) (add_term acc (codes "host ") (to_net_ip ip))

loop_result :
    (fuel n ip stop : ℕ) (acc : Bytes)
    → (n + ip ≡ stop + 1
        → stop + 1 < 2 ^ 32
        → n < fuel
        → host_loop fuel ip stop acc ≡ text (host_terms n ip acc))
      × (ip < 2 ^ 32 → stop ≡ 2 ^ 32 - 1 → host_loop fuel ip stop acc ≡ endless)
unfolding host_loop host_terms
loop_result zero n ip stop acc = (λ e h k. absurd (omega arith), λ h e. refl)
loop_result (suc fuel) zero ip stop acc =
    let (_, never) =
      loop_result fuel zero ((ip + 1) % 2 ^ 32) stop
        (add_term acc (codes "host ") (to_net_ip ip)) in
    (
      λ e h k. ground arith,
      λ h e. (let go : leb ip stop ≡ true = ground arith in rw go (never (omega arith) e)),
    )
loop_result (suc fuel) (suc n) ip stop acc =
    let (ends, never) =
      loop_result fuel n ((ip + 1) % 2 ^ 32) stop (add_term acc (codes "host ") (to_net_ip ip)) in
    (
      λ e h k.
          (let go : leb ip stop ≡ true = ground arith in
            let next : (ip + 1) % 2 ^ 32 ≡ ip + 1 = omega arith in
            rw go (
              ends (omega arith) h (omega arith)
              ∙ ap (λ i. text (host_terms n i (add_term acc (codes "host ") (to_net_ip ip))))
                  next)),
      λ h e. (let go : leb ip stop ≡ true = ground arith in rw go (never (omega arith) e)),
    )

-- A range of addresses that ends before 255.255.255.255 gives a term for each address from the
-- first to the last, in order, and the loop over it ends.
pub host_loop-ends :
    (fuel n ip stop : ℕ) (acc : Bytes)
    → n + ip ≡ stop + 1
    → stop + 1 < 2 ^ 32
    → n < fuel
    → host_loop fuel ip stop acc ≡ text (host_terms n ip acc)
host_loop-ends fuel n ip stop acc = (loop_result fuel n ip stop acc).0

-- The loop over a range of addresses that ends at 255.255.255.255 never ends, however many rounds
-- it is given: the counter wraps round to 0.
pub host_loop-endless :
    (fuel ip : ℕ) (acc : Bytes) → ip < 2 ^ 32 → host_loop fuel ip (2 ^ 32 - 1) acc ≡ endless
host_loop-endless fuel ip acc h = (loop_result fuel 0 ip (2 ^ 32 - 1) acc).1 h refl
