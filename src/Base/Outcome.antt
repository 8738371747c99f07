-- ===== src/Base/Outcome.antt =====
-- What a FastAPI handler returns: a value, or the status code of the `HTTPException` it raises.
use Prim.Native.Nat.{ℕ}

pub data Reply {ℓ} (A : Type ℓ) : Type ℓ where
  ok : A → Reply A
  http : ℕ → Reply A
