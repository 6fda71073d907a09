-- ===== src/Request.antt =====
-- sim/request.go: the fields of `Request` that the modelled components read or write, and its
-- accessors. Token ids, lengths and indices are natural numbers; the int64 arithmetic on them stays
-- far below 2^63.
use inference_sim.Prelude.{
  ℕ, ◌+◌, ◌-◌, max, ℤ, String, List, length, take, drop, ltb, ◌||◌, Result, ok, panic, bad_argument,
  if◌then◌else◌,
}

pub data RequestState : Type 0 where
  queued running completed timed_out waiting_for_remote_kvs : RequestState

pub record Request : Type 0 where
  pub id : String
  pub input_tokens : List ℕ
  pub output_tokens : List ℕ
  pub state : RequestState
  pub progress_index : ℕ
  pub num_new_tokens : ℕ
  pub arrival_time : ℕ
  pub tenant_id : String
  pub slo_class : String
  pub slo_target_us : ℤ
  pub gateway_enqueue_time : ℤ

-- InputLen
abbrev pub input_len : Request → ℕ
input_len r = length r.input_tokens

-- InputTokenSlice: the guard's `start < 0` cannot hold of a natural number.
unfoldable pub input_token_slice : Request → ℕ → ℕ → Result (List ℕ)
input_token_slice r start end =
    if ltb end start || ltb (input_len r) end
    then panic bad_argument
    else ok (take (end - start) (drop start r.input_tokens))

-- completionProgressIndex
unfoldable pub completion_progress_index : Request → ℕ
completion_progress_index r = input_len r + max (length r.output_tokens) 1 - 1
