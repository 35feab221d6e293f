-- ===== src/Exec.antt =====
-- Methods that mutate an object, may return an error, and loop on fuel. What was written before an
-- error stays written, so the state comes back beside every outcome.
pub mod Keeps
use mathlib.Core.Logic.{◌⊎◌, inl, inr}
use mural.Prelude.{ℕ, ◌≡◌, refl, Bool, true, false, Text, Option}

-- Which argument an index belongs to (the `label` of `validate_output_index`).
pub data Label : Type 0 where
  replace quarantine favorite unfavorite : Label

-- The messages of `ProtocolError` that the JSON reader gives.
pub data JsonError : Type 0 where
  unexpected_byte invalid_escape : ℕ → JsonError
  expected_byte : ℕ → Option ℕ → JsonError
  expected_literal : Text → JsonError
  unexpected_end unexpected_trailing nesting_too_deep : JsonError
  control_byte unterminated_string unterminated_escape : JsonError
  unterminated_unicode invalid_digit missing_low_surrogate : JsonError
  missing_high_surrogate invalid_scalar digit_after_minus : JsonError
  expected_number digit_after_point digit_in_exponent : JsonError
  invalid_utf8 truncated_utf8 : JsonError

-- One constructor for each message that the modelled functions format.
pub data Error : Type 0 where
  no_active_outputs : Error
  index_out_of_range : Label → ℕ → Error
  locate_failed : ℕ → Error
  favorite_missing : Text → Error
  does_not_render : Error
  no_history : Error
  incomplete_history : Error
  no_wallpapers_in : Text → Error
  no_replacement_in : Text → Error
  no_file_name : Text → Error
  create_dir_failed : Text → Error
  read_dir_failed : Text → Error
  write_failed : Text → Error
  rename_failed : Text → Error
  no_canvas_history : Error
  no_positions : Error
  current_not_in_history : Text → Error
  target_not_in_history : Text → Error
  too_few_tiles : ℕ → ℕ → Error
  does_not_fit : Text → Error
  json_error : JsonError → Error
  -- A message as the source writes it.
  message : Text → Error

-- `running`: the loop has not ended within the fuel.
pub data Outcome {ℓ} (A : Type ℓ) : Type ℓ where
  ok : A → Outcome A
  err : Error → Outcome A
  running : Outcome A

abbrev pub Exec {ℓ} : Type ℓ → Type ℓ → Type ℓ
Exec S A = S → Outcome A × S

module _ {ℓ} {S A : Type ℓ} where
  abbrev pub pure : A → Exec S A
  pure a s = (ok a, s)

  abbrev pub raise : Error → Exec S A
  raise e s = (err e, s)

  -- The fuel is used up.
  abbrev pub out_of_fuel : Exec S A
  out_of_fuel s = (running, s)

  abbrev pub gets : (S → A) → Exec S A
  gets f s = (ok (f s), s)

  abbrev pub lift : Outcome A → Exec S A
  lift o s = (o, s)

abbrev pub modify : {S : Type 0} → (S → S) → Exec S (Unit {0})
modify f s = (ok tt, f s)

abbrev pub guard : {S : Type 0} → Bool → Error → Exec S (Unit {0})
guard true e s = (ok tt, s)
guard false e s = (err e, s)

module _ {ℓ} {S A B : Type ℓ} where
  abbrev pub continue : Outcome A → (A → Exec S B) → Exec S B
  continue (ok a) f s = f a s
  continue (err e) f s = (err e, s)
  continue running f s = (running, s)

  infixl 5 ◌>>=◌ ◌>>◌
  abbrev pub ◌>>=◌ : Exec S A → (A → Exec S B) → Exec S B
  ◌>>=◌ m f s = let r = m s in continue r.0 f r.1

  abbrev pub ◌>>◌ : Exec S A → Exec S B → Exec S B
  m >> n = m >>= λ _. n

  -- Inversion of a successful bind.
  pub continue-eq-ok :
      (o : Outcome A) (f : A → Exec S B) (s : S) {b : B}
      → (continue o f s).0 ≡ ok b
      → (a : A) × (o ≡ ok a) × ((f a s).0 ≡ ok b)
  continue-eq-ok (ok a) f s h = (a, refl, h)
  continue-eq-ok (err e) f s h = cc
  continue-eq-ok running f s h = cc

module _ {ℓ} {A : Type ℓ} where
  pub Outcome-cases :
      (o : Outcome A) → ((a : A) × (o ≡ ok a)) ⊎ (((e : Error) × (o ≡ err e)) ⊎ (o ≡ running))
  Outcome-cases (ok a) = inl (a, refl)
  Outcome-cases (err e) = inr (inl (e, refl))
  Outcome-cases running = inr (inr refl)

  pub ok-injective : (a b : A) → ok a ≡ ok b → a ≡ b
  ok-injective a b h = cc
