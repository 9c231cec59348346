-- ===== src/Prelude/Results.antt =====
-- What a Go call can come to: its results, an error value, or a run-time panic.

-- The error values of xerrors and of core/buffer that the modelled code returns. `io_eof` stands
-- for what `io.ReadFull` returns when the stream ends early.
pub data Error : Type 0 where
  unexpected_eof : Error
  invalid_message : Error
  message_too_large : Error
  negative_position : Error
  io_eof : Error
  not_found_session : Error
  invalid_session_kind : Error
  not_found_endpoint : Error
  not_found_route : Error
  not_found_event : Error
  not_found_locator : Error
  not_found_user_location : Error
  invalid_gid : Error

pub data Outcome {ℓ} (A : Type ℓ) : Type ℓ where
  ok : A → Outcome A
  err : Error → Outcome A
  panic : Outcome A

abbrev pub bind_outcome {ℓ κ} : {A : Type ℓ} {B : Type κ} → Outcome A → (A → Outcome B) → Outcome B
bind_outcome (ok a) f = f a
bind_outcome (err e) f = err e
bind_outcome panic f = panic

abbrev pub map_outcome {ℓ κ} : {A : Type ℓ} {B : Type κ} → (A → B) → Outcome A → Outcome B
map_outcome f (ok a) = ok (f a)
map_outcome f (err e) = err e
map_outcome f panic = panic
