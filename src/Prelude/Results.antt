-- ===== src/Prelude/Results.antt =====
-- A value, or the message of an error.
use Prim.Native.String.{String}
use mathlib.Core.Option.{Option, none, some}

pub data Checked {ℓ} (A : Type ℓ) : Type ℓ where
  ok : A → Checked A
  refused : String → Checked A

unfoldable pub and_then {ℓ κ} : {A : Type ℓ} {B : Type κ} → Checked A → (A → Checked B) → Checked B
and_then (ok a) f = f a
and_then (refused e) f = refused e

-- A value that may be missing.
unfoldable pub or_refused {ℓ} : {A : Type ℓ} → String → Option A → Checked A
or_refused e none = refused e
or_refused e (some a) = ok a
