-- ===== src/Store/Batch/Laws.antt =====
-- The answers of a batch are those of its requests.
use mock_tikv.Prelude.{ℕ, ◌≡◌, refl, ap, ◌∙◌, Option, none, some, List, [], ◌∷◌, map, take, length}
use mathlib.Core.Path.{subst}
use mock_tikv.Engine.{Engine}
use mock_tikv.Store.{StoreInstance, State, CallError}
use mock_tikv.Store.Batch.{
  BatchRequest, BatchResponse, Handled, crashed, broken, responded, Round, add_response,
  handle_batch_request, batch_round,
}

module _ (e : Engine) (s : StoreInstance) (st : State e.Db) where
  -- Each request has its own response, in its place and under its id.
  pub record Answers (ids : List ℕ) (requests : List BatchRequest) (round : Round) : Type 0 where
    pub answers : List BatchResponse
    pub responses_eq : round.responses ≡ map some answers
    pub handled_eq : map (handle_batch_request e s st) requests ≡ map responded answers
    pub ids_eq : round.request_ids ≡ take (length requests) ids

  add_response-Answers :
      (id : ℕ) (ids : List ℕ) (r : BatchRequest) (rs : List BatchRequest) (handled : Handled)
      (rest : Option Round) (round : Round)
      → handle_batch_request e s st r ≡ handled
      → batch_round e s st ids rs ≡ rest
      → add_response id (length rs) handled rest ≡ some round
      → round.error ≡ none
      → ((later : Round) → rest ≡ some later → later.error ≡ none → Answers ids rs later)
      → Answers (id ∷ ids) (r ∷ rs) round
  add_response-Answers id ids r rs crashed rest round q k h n ih = cc h
  add_response-Answers id ids r rs (broken x) rest round q k h n ih =
      let bad : some x ≡ round.error = ap error_of h in cc (bad, n)
    where
      error_of : Option Round → Option CallError
      error_of none = none
      error_of (some round) = round.error
  add_response-Answers id ids r rs (responded b) none round q k h n ih = cc h
  add_response-Answers id ids r rs (responded b) (some later) round q k h n ih =
      let joined : Round = record {
        request_ids = id ∷ later.request_ids;
        responses = some b ∷ later.responses;
        error = later.error;
      } in
      let same : joined ≡ round = cc h in
      let none_later : later.error ≡ none = ap (λ (x : Round). x.error) same ∙ n in
      let rest : Answers ids rs later = ih later refl none_later in
      subst (Answers (id ∷ ids) (r ∷ rs)) same (record {
        answers = b ∷ rest.answers;
        responses_eq = ap (λ xs. some b ∷ xs) rest.responses_eq;
        handled_eq = rw q (ap (λ xs. responded b ∷ xs) rest.handled_eq);
        ids_eq = ap (λ xs. id ∷ xs) rest.ids_eq;
      })

  -- A batch that meets no error is answered request by request: the responses are those of
  -- handleBatchRequest to each request, in order, under the ids of the requests.
  pub batch_round-Answers :
      (ids : List ℕ) (requests : List BatchRequest) (round : Round)
      → batch_round e s st ids requests ≡ some round
      → round.error ≡ none
      → Answers ids requests round
  unfolding batch_round
  batch_round-Answers ids [] round h n =
      let nothing : Round = record { request_ids = []; responses = []; error = none } in
      let same : nothing ≡ round = cc h in
      subst (Answers ids []) same
        (record { answers = []; responses_eq = refl; handled_eq = refl; ids_eq = refl })
  batch_round-Answers [] (r ∷ rs) round h n = cc h
  batch_round-Answers (id ∷ ids) (r ∷ rs) round h n =
      add_response-Answers id ids r rs (handle_batch_request e s st r) (batch_round e s st ids rs)
        round refl refl h n (λ later q m. batch_round-Answers ids rs later q m)
