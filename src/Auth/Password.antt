-- ===== src/Auth/Password.antt =====
-- The policies on user names and passwords: `normalize_username` of src/zglab_rag/auth/identity.py
-- and `validate_password_policy` of src/zglab_rag/auth/passwords.py.
use zglab_rag.Prelude.{ℕ, Bool, false, ◌&&◌, ◌||◌, [], ◌∷◌, Text, leb, nat_beq, length, all}
use zglab_rag.Auth.Models.{Platform, username_policy, password_policy}
use zglab_rag.Auth.Exec.{Exec, pure, require, ◌>>◌}
use zglab_rag.Auth.Db.{AuthDb}

-- `[a-z0-9]`
abbrev pub is_alnum : ℕ → Bool
is_alnum c = (leb b'a' c && leb c b'z') || (leb b'0' c && leb c b'9')

-- `[a-z0-9._-]`
abbrev pub is_name_char : ℕ → Bool
is_name_char c = is_alnum c || (nat_beq c b'.' || (nat_beq c b'_' || nat_beq c b'-'))

-- `^[a-z0-9][a-z0-9._-]{1,31}$`, matched in full
unfoldable pub matches_username : Text → Bool
matches_username [] = false
matches_username (c ∷ s) =
    is_alnum c && (leb 1 (length s) && (leb (length s) 31 && all is_name_char s))

unfoldable pub normalize_username : Platform → Text → Exec AuthDb Text
normalize_username π raw = do
  let normalized = π.lower (π.strip raw)
  require (matches_username normalized) username_policy
  pure normalized

unfoldable pub validate_password_policy : ℕ → ℕ → Text → Exec AuthDb (Unit {0})
validate_password_policy min_length max_length password = do
  require (leb min_length (length password)) password_policy
  require (leb (length password) max_length) password_policy
