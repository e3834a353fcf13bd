-- ===== src/Http.antt =====
-- internal/platform/httpx/response.go: the envelope of a response, by its status.
pub mod Feeds
pub mod Products
pub mod Views
use vidmerce.Prelude.{ℕ, Bytes, text}

-- What a handler writes; `error` has the status, the code and the message.
pub data Reply {ℓ} (A : Type ℓ) : Type ℓ where
  ok : A → Reply A
  created : A → Reply A
  accepted : A → Reply A
  error : ℕ → Bytes → Bytes → Reply A

abbrev pub code_validation_failed : Bytes
code_validation_failed = text "validation_failed"

abbrev pub code_unauthenticated : Bytes
code_unauthenticated = text "unauthenticated"

abbrev pub code_forbidden : Bytes
code_forbidden = text "forbidden"

abbrev pub code_not_found : Bytes
code_not_found = text "not_found"

abbrev pub code_conflict : Bytes
code_conflict = text "conflict"

abbrev pub code_internal : Bytes
code_internal = text "internal_error"
