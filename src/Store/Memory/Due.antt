-- ===== src/Store/Memory/Due.antt =====
-- internal/store/memory.go: what RecordResult returns, but for the ids.
use service_reliability_watc.Common.{◌≡◌, arith, reverse}
use service_reliability_watc.Common.Clock.{Duration}
use service_reliability_watc.Domain.Types.{CheckResult}
use service_reliability_watc.Store.Types.{dedupe_key}
use service_reliability_watc.Store.Outcome.{without_ids, outcome_due}
use service_reliability_watc.Store.Memory.{
  Memory, duplicate, append_result, append_transition, append_alert, record_result,
}
use service_reliability_watc.Store.Memory.Frames.{previous}

pub without_ids-record_result :
    {F : Type 0} (m : Memory F) (r : CheckResult) (window : Duration)
    → without_ids (record_result m r window).1
      ≡ outcome_due
          (previous m r)
          (duplicate (dedupe_key r.endpoint_id r.state) r.checked_at window (reverse m.alerts))
          r
unfolding record_result append_alert append_transition append_result
without_ids-record_result m r window = ground arith
