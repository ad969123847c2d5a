-- ===== src/Entity/Base.antt =====
-- Instants, durations and JSON texts, and the assignment of an optional update.
use better_auth_rs_worker.Prelude.{ℕ, String, Option, none, some}

abbrev pub Instant : Type 0
Instant = ℕ

abbrev pub Duration : Type 0
Duration = ℕ

abbrev pub Json : Type 0
Json = String

-- `if let Some(v) = update { field = v }`
abbrev pub assign {ℓ} : {A : Type ℓ} → Option A → A → A
assign none old = old
assign (some v) old = v

-- `if let Some(v) = update { field = Some(v) }`
abbrev pub assign_some {ℓ} : {A : Type ℓ} → Option A → Option A → Option A
assign_some none old = old
assign_some (some v) old = some v
