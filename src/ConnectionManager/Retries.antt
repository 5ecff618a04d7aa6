-- ===== src/ConnectionManager/Retries.antt =====
-- Shared/Network/ConnectionManager.cpp, CalculateRetryInterval: the bounds of the interval.
use helianthus.Prelude.{
  ℕ, ◌+◌, ◌-◌, ◌*◌, ◌/◌, ◌%◌, ◌≤◌, ◌<◌, ◌≡◌, ◌⊎◌, inl, inr, none, some, arith, dec_lt, u32_mod,
}
use helianthus.ConnectionManager.{ConnectionInfo}
use helianthus.ConnectionManager.Rounds.{capped_interval, calculate_retry_interval}

calculate_retry_interval-none :
    (random : ℕ) (c : ConnectionInfo)
    → capped_interval c < 4
    → calculate_retry_interval random c ≡ none
unfolding calculate_retry_interval
calculate_retry_interval-none random c h = ground arith

jittered-bounds :
    (random interval : ℕ)
    → 4 ≤ interval
    → interval < 2147483648
    → (let r = (interval + random % (2 * (interval / 4)) + (u32_mod - interval / 4)) % u32_mod in
        (interval ≤ r + interval / 4) × (r < interval + interval / 4))
jittered-bounds random interval l h = ground arith

-- Below a capped back-off of 4 milliseconds there is no interval, since the jitter is 0 and a
-- remainder by 0 is taken. From there on, if at most 2^31 milliseconds are allowed, the interval is at
-- most a quarter below the capped back-off and less than a quarter above it.
pub calculate_retry_interval-bounds :
    (random : ℕ) (c : ConnectionInfo)
    → c.max_retry_interval_ms < 2147483648
    → ((capped_interval c < 4) × (calculate_retry_interval random c ≡ none))
      ⊎ ((r : ℕ) × (calculate_retry_interval random c ≡ some r)
          × (capped_interval c ≤ r + capped_interval c / 4)
          × (r < capped_interval c + capped_interval c / 4))
unfolding calculate_retry_interval
calculate_retry_interval-bounds random c h = elim (dec_lt (capped_interval c) 4) [
  | yes l ↦ inl (l, calculate_retry_interval-none random c l)
  | no n ↦
      let (a, b) = jittered-bounds random (capped_interval c) (omega arith) (omega arith) in
      inr (
        (capped_interval c
              + random % (2 * (capped_interval c / 4))
              + (u32_mod - capped_interval c / 4))
            % u32_mod,
        ground arith,
        a,
        b,
      )
]
