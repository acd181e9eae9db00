-- ===== src/Tests/Queries.antt =====
-- Requests of crates/dataplane/src/ops.rs at concrete inputs.
use sembazuru.Base.{true, false, [], ◌∷◌, arith}
use sembazuru.Bytes.{le_bytes, IsSlice}
use sembazuru.Dataplane.Ops.Stat as Stat
use sembazuru.Dataplane.Ops.RoundTrip.Messages.{stats, ReadBack, exchange_round_trip}
use sembazuru.Tests.Inputs.{ab, ab-IsText}

abbrev stat_request : Stat.StatRequest
stat_request = record { paths = ab ∷ [] }

abbrev stat_response : Stat.StatResponse
stat_response = record {
  entries = record { exists = true; is_dir = false; size = 5; digest_hex = ab } ∷ [];
}

stat_request-IsSlice : IsSlice (Stat.encode_request stat_request)
unfolding Stat.encode_request le_bytes
stat_request-IsSlice = omega arith

stat_response-IsSlice : IsSlice (Stat.encode_response stat_response)
unfolding Stat.encode_response le_bytes
stat_response-IsSlice = omega arith

exchange_round_trip_example : ReadBack (stats stat_request stat_response)
exchange_round_trip_example = exchange_round_trip (stats stat_request stat_response) (
  record { count = omega arith; texts = (ab-IsText, tt); slice = stat_request-IsSlice },
  record {
    count = omega arith;
    each = (record { size = omega arith; digest = ab-IsText }, tt);
    slice = stat_response-IsSlice;
  },
)
