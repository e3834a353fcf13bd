-- ===== src/Auth/Email.antt =====
-- internal/auth/domain.go: how an email is normalized, with the functions of strings that the package
-- uses, on ASCII.
use vidmerce.Prelude.{ℕ, Bool, false, ◌||◌, ◌&&◌, [], ◌∷◌, Bytes, ◌==◌, leb, if◌then◌else◌, ◌+◌}

is_space : ℕ → Bool
is_space c = c == 32 || (leb 9 c && leb c 13)

trim_left : Bytes → Bytes
unfolding is_space
trim_left [] = []
trim_left (c ∷ cs) = let rest = trim_left cs in if is_space c then rest else c ∷ cs

trim_right : Bytes → Bytes
unfolding is_space
trim_right [] = []
trim_right (c ∷ cs) = elim (trim_right cs) [
  | [] ↦ if is_space c then [] else c ∷ []
  | d ∷ ds ↦ c ∷ d ∷ ds
]

lower : ℕ → ℕ
lower c = if leb 65 c && leb c 90 then c + 32 else c

unfoldable pub to_lower : Bytes → Bytes
unfolding lower
to_lower [] = []
to_lower (c ∷ cs) = lower c ∷ to_lower cs

-- `strings.TrimSpace`, on ASCII.
unfoldable pub trim_space : Bytes → Bytes
unfolding trim_left trim_right
trim_space s = trim_right (trim_left s)

-- `NormalizeEmail`, on ASCII.
unfoldable pub normalize_email : Bytes → Bytes
unfolding to_lower
normalize_email email = to_lower (trim_space email)

-- strings.Contains of one character.
unfoldable pub contains : ℕ → Bytes → Bool
contains c [] = false
contains c (d ∷ ds) = c == d || contains c ds
