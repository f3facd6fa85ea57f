-- ===== src/Kingdee/Live.antt =====
-- services/kingdee_adapter/transport.py: LiveTransport behind its entry gates. The backend is a
-- parameter; an answer of execute comes with the calls it made of the backend. The checks of
-- LiveDestination.__post_init__ are not modelled: the destination is only handed on.
use esan_gbos.Prelude.{
  String, Bool, true, false, not, ◌&&◌, some, List, [], ◌∷◌, if◌then◌else◌, ◌==◌, string_eq,
}
use esan_gbos.Prelude.Int.{ℤ, pos, leb_ℤ}
use esan_gbos.Kingdee.Models.{ValidatedRequest, QueryPlan, TransportResult, unavailable_result}
use esan_gbos.Kingdee.Adapter.{Transport}

pub record LiveDestination : Type 0 where
  pub url : String
  pub allowlisted_urls : List String

pub record LiveEntryGates : Type 0 where
  pub enabled : Bool
  pub gate : ℤ
  pub runtime_mode : String
  pub network_allowed : Bool
  pub credentials_available : Bool
  pub metadata_verified : Bool
  pub business_reads_enabled : Bool

-- LiveEntryGates.ready
unfoldable pub ready : LiveEntryGates → Bool
ready gates =
    gates.enabled
    && (leb_ℤ (pos 5) gates.gate
        && (gates.runtime_mode == "live"
            && (gates.network_allowed
                && (gates.credentials_available
                    && (gates.metadata_verified && gates.business_reads_enabled)))))

-- What a call of the backend does: it raises an Exception, or returns something that is or is not a
-- TransportResult. Other BaseExceptions, such as KeyboardInterrupt, end the program.
pub data Reply : Type 0 where
  raised foreign : Reply
  returned_result : TransportResult → Reply

abbrev pub LiveBackend : Type 0
LiveBackend = LiveDestination → QueryPlan → ValidatedRequest → Reply

-- LiveTransport.execute: what follows the backend's reply
unfoldable pub live_result : LiveEntryGates → Reply → TransportResult
live_result gates raised =
    unavailable_result "live_transport_unavailable" 1 true gates.metadata_verified
live_result gates foreign =
    unavailable_result "live_transport_invalid_response" 1 true gates.metadata_verified
live_result gates (returned_result result) = result

module _ (destination : LiveDestination) (gates : LiveEntryGates) (backend : LiveBackend) where
  -- LiveTransport.execute, with the calls of the backend
  unfoldable pub live_execute :
      QueryPlan → ValidatedRequest → TransportResult × List (QueryPlan × ValidatedRequest)
  live_execute plan request =
      if not (ready gates)
      then (unavailable_result "live_entry_gates_closed" 0 false false, [])
      else (live_result gates (backend destination plan request), (plan, request) ∷ [])

  unfoldable pub live_transport : Transport
  live_transport = record {
    synthetic = false;
    execute = λ plan request. some (live_execute plan request).0;
  }
