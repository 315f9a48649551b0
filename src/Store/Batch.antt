-- ===== src/Store/Batch.antt =====
-- handleBatchRequest and BatchCommands of server/store.go: requests that come in batches over a
-- stream.
mod Tests
pub mod Laws
use mock_tikv.Prelude.{
  ℕ, zero, suc, Bool, true, false, Option, none, some, List, [], ◌∷◌, Bytes, if◌then◌else◌, length,
  replicate,
}
use mock_tikv.Engine.{Engine}
use mock_tikv.Store.{
  StoreInstance, State, Call, CallError, KvPair, Reply, panicked, failed, region_error, key_error,
  answered,
}
use mock_tikv.Store.Kv.{kv_get, kv_scan}

-- BatchCommandsRequest_Request: the commands of the service that it reads, or another
pub data BatchRequest : Type 0 where
  get_request : Call → Bytes → ℕ → BatchRequest
  scan_request : Call → Bytes → Bytes → ℕ → ℕ → Bool → BatchRequest
  other_request : BatchRequest

-- BatchCommandsResponse_Response
pub data BatchResponse : Type 0 where
  get_response : Reply (Option Bytes) → BatchResponse
  scan_response : Reply (List KvPair) → BatchResponse
  no_cmd : BatchResponse

-- What handleBatchRequest returns: its response or an error, unless it panics
pub data Handled : Type 0 where
  crashed : Handled
  broken : CallError → Handled
  responded : BatchResponse → Handled

-- The response or the error of a handler
abbrev pub respond {ℓ} : {A : Type ℓ} → (Reply A → BatchResponse) → Reply A → Handled
respond wrap panicked = crashed
respond wrap (failed x) = broken x
respond wrap r = responded (wrap r)

-- What a round of BatchCommands sends, and the error that has ended its loop. An id and a response
-- that the loop has not reached are 0 and nil.
pub record Round : Type 0 where
  pub request_ids : List ℕ
  pub responses : List (Option BatchResponse)
  pub error : Option CallError

-- The response of one request before those of the others, of which there are `left`
abbrev pub add_response : ℕ → ℕ → Handled → Option Round → Option Round
add_response id left crashed rest = none
add_response id left (broken x) rest = some (record {
  request_ids = id ∷ replicate left 0;
  responses = none ∷ replicate left none;
  error = some x;
})
add_response id left (responded r) none = none
add_response id left (responded r) (some rest) = some (record {
  request_ids = id ∷ rest.request_ids;
  responses = some r ∷ rest.responses;
  error = rest.error;
})

-- What comes over the stream, with whether the answer can be sent
pub record Received : Type 0 where
  pub request_ids : List ℕ
  pub requests : List BatchRequest
  pub sends : Bool

-- How BatchCommands ends: `io.EOF`, an error of the stream or of a request, a panic
pub data End : Type 0 where
  end_of_file recv_failed send_failed batch_panicked : End
  request_failed : CallError → End

module _ (e : Engine) (s : StoreInstance) (st : State e.Db) where
  -- handleBatchRequest
  unfoldable pub handle_batch_request : BatchRequest → Handled
  unfolding kv_get kv_scan
  handle_batch_request (get_request call key version) =
      respond get_response (kv_get e s st call key version).1
  handle_batch_request (scan_request call start_key end_key limit version key_only) =
      respond scan_response (kv_scan e s st call start_key end_key limit version key_only).1
  handle_batch_request other_request = responded no_cmd

  -- The loop over the requests of a batch; `none` is a panic, of a handler or of an index.
  unfoldable pub batch_round : List ℕ → List BatchRequest → Option Round
  unfolding handle_batch_request
  batch_round ids [] = some (record { request_ids = []; responses = []; error = none })
  batch_round [] (r ∷ rs) = none
  batch_round (id ∷ ids) (r ∷ rs) =
      add_response id (length rs) (handle_batch_request r) (batch_round ids rs)

  -- The end of a round: the answer is sent, and an error of the loop ends the stream.
  abbrev pub after_round : Bool → Option Round → List Round × End → List Round × End
  after_round sends none more = ([], batch_panicked)
  after_round false (some round) more = ([], send_failed)
  after_round true (some round) (rounds, end) = elim round.error [
    | none ↦ (round ∷ rounds, end)
    | some x ↦ (round ∷ [], request_failed x)
  ]

  -- BatchCommands on what comes, with `end` the end of the stream: the answers sent.
  unfoldable pub batch_commands : End → List Received → List Round × End
  unfolding batch_round
  batch_commands end [] = ([], end)
  batch_commands end (b ∷ bs) =
      after_round b.sends (batch_round b.request_ids b.requests) (batch_commands end bs)
