-- ===== src/VoiceForwarder/Rate.antt =====
-- The token buckets of one stream.
use tsod.Prelude.{ℕ, ◌+◌, ◌-◌, ◌≤◌, ◌≡◌, arith, if◌then◌else◌}
use tsod.VoiceForwarder.{RateState, check_monotonic_ts, refill, allow_rate_at}

-- The buckets hold no more than the limits.
pub record IsLimited (pps_limit bps_limit : ℕ) (st : RateState) : Type 0 where
  pub pkts : st.tokens_pkts ≤ pps_limit
  pub bytes : st.tokens_bytes ≤ bps_limit

check_monotonic_ts_tokens :
    (st : RateState) (ts now : ℕ)
    → let st' = (check_monotonic_ts st ts now).1 in
      (st'.tokens_pkts ≡ st.tokens_pkts)
      × (st'.tokens_bytes ≡ st.tokens_bytes)
      × (st'.last ≡ st.last)
unfolding check_monotonic_ts
check_monotonic_ts_tokens st ts now = ground arith

refill_bounds :
    (gained : ℕ → ℕ → ℕ) (st : RateState) (pps_limit bps_limit now : ℕ)
    → IsLimited pps_limit bps_limit st
    → let st' = refill gained st pps_limit bps_limit now in
      IsLimited pps_limit bps_limit st'
      × (st'.tokens_pkts ≤ st.tokens_pkts + gained (now - st.last) pps_limit)
      × (st'.tokens_bytes ≤ st.tokens_bytes + gained (now - st.last) bps_limit)
unfolding refill
refill_bounds gained st pps_limit bps_limit now v = ground arith

-- Where the buckets hold no more than the limits, a packet that is accepted is paid for, one packet
-- and its bytes, from what was in the buckets and what the time since the last refill has gained, a
-- refused packet adds no more than that gain, and the buckets still hold no more than the limits.
pub allow_rate_at_budget :
    (gained : ℕ → ℕ → ℕ) (pps_limit bps_limit : ℕ) (st : RateState) (bytes ts_ms now : ℕ)
    → IsLimited pps_limit bps_limit st
    → let (allowed, st') = allow_rate_at gained pps_limit bps_limit st bytes ts_ms now in
      IsLimited pps_limit bps_limit st'
      × (st'.tokens_pkts + (if allowed then 1 else 0)
          ≤ st.tokens_pkts + gained (now - st.last) pps_limit)
      × (st'.tokens_bytes + (if allowed then bytes else 0)
          ≤ st.tokens_bytes + gained (now - st.last) bps_limit)
unfolding allow_rate_at
allow_rate_at_budget gained pps_limit bps_limit st bytes ts_ms now v =
    let c = check_monotonic_ts_tokens st ts_ms now in
    let st' = (check_monotonic_ts st ts_ms now).1 in
    ground (arith, c, v, refill_bounds gained st' pps_limit bps_limit now (ground (arith, c, v)))
