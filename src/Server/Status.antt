-- ===== src/Server/Status.antt =====
-- crates/settled-server/src/error.rs. A `Status` is its code and its text; a text is a constructor
-- with the numbers that are formatted into it. Counting errors (`track_err`) is not modelled.
use settled.Prelude.{ℕ}
use settled.Prelude.Results.{Result, ok, err}
use settled.Core.Proof.{ProofError}
use settled.Core.Proof
use settled.Storage.Types

pub data Text : Type 0 where
  rate_limit_exceeded : Text
  seq_not_found : ℕ → Text
  no_sth_available_yet : Text
  batch_too_large no_sth_at no_sth_at_old_size no_sth_at_new_size : ℕ → Text
  seq_out_of_range : ℕ → ℕ → Text
  old_size_must_be_positive key_must_not_be_empty invalid_api_key : Text
  old_size_above_new_size : ℕ → ℕ → Text
  stream_lagged : ℕ → Text
  storage_text : Types.Error → Text
  proof_text : ProofError → Text

pub data Status : Type 0 where
  not_found invalid_argument internal resource_exhausted unauthenticated : Text → Status

pub data Error : Type 0 where
  storage : Types.Error → Error
  proof_error : ProofError → Error
  not_found_error invalid_argument_error : Text → Error

-- `Status::from`.
unfoldable pub status_from : Error → Status
status_from (not_found_error msg) = Status.not_found msg
status_from (invalid_argument_error msg) = Status.invalid_argument msg
status_from (storage e) = Status.internal (storage_text e)
status_from (proof_error e) = Status.internal (proof_text e)

-- `map_err(|e| Status::from(Error::Storage(e)))?` and the same for `Error::Proof`.
abbrev pub or_storage {ℓ} : {A : Type ℓ} → Result Types.Error A → Result Status A
or_storage (ok a) = ok a
or_storage (err e) = err (status_from (storage e))

abbrev pub or_proof {ℓ} : {A : Type ℓ} → Proof.Result A → Result Status A
or_proof (Proof.ok a) = ok a
or_proof (Proof.err e) = err (status_from (proof_error e))
