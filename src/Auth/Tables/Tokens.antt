-- ===== src/Auth/Tables/Tokens.antt =====
-- `CredentialTokenRepository` of src/zglab_rag/auth/repositories.py.
use zglab_rag.Prelude.{
  ℕ, Option, none, some, Bool, ◌&&◌, [], ◌∷◌, ◌++◌, Text, ◌==◌, nat_eq, text_eq,
}
use zglab_rag.Prelude.Rows.{find, update, row_count, next_id}
use zglab_rag.Auth.Models.{CredentialTokenRecord, TokenPurpose, purpose_beq, integrity_error}
use zglab_rag.Auth.Exec.{Exec, ok, err}
use zglab_rag.Auth.Db.{AuthDb}
use zglab_rag.Auth.Tables.Sessions.{is_null}

abbrev pub find_by_hash : Text → AuthDb → Option CredentialTokenRecord
find_by_hash token_hash db = find (λ t. t.token_hash == token_hash) db.tokens

abbrev pub with_id : ℕ → CredentialTokenRecord → CredentialTokenRecord
with_id id t = record t { id = id; consumed_at = none; revoked_at = none }

-- The insertion, where the schema's `UNIQUE` finds no row of the hash; the id is the table's.
abbrev pub insert_new :
    Option CredentialTokenRecord → CredentialTokenRecord → Exec AuthDb CredentialTokenRecord
insert_new (some _) t db = (err integrity_error, db)
insert_new none t db = (ok t, record db { tokens = db.tokens ++ t ∷ [] })

unfoldable pub create : CredentialTokenRecord → Exec AuthDb CredentialTokenRecord
create token db =
    insert_new (find_by_hash token.token_hash db) (with_id (next_id (λ x. x.id) db.tokens) token) db

-- `UPDATE credential_tokens SET … WHERE …`
unfoldable pub update_tokens :
    (CredentialTokenRecord → Bool)
    → (CredentialTokenRecord → CredentialTokenRecord)
    → AuthDb
    → AuthDb
update_tokens q f db = record db { tokens = update q f db.tokens }

abbrev pub is_unconsumed : ℕ → CredentialTokenRecord → Bool
is_unconsumed token_id t = t.id == token_id && is_null t.consumed_at

unfoldable pub mark_consumed : ℕ → ℕ → AuthDb → AuthDb
unfolding update_tokens
mark_consumed token_id now =
    update_tokens (is_unconsumed token_id) (λ t. record t { consumed_at = some now })

unfoldable pub consumed_count : ℕ → AuthDb → ℕ
consumed_count token_id db = row_count (is_unconsumed token_id) db.tokens

unfoldable pub revoke_superseded : ℕ → TokenPurpose → ℕ → AuthDb → AuthDb
unfolding update_tokens
revoke_superseded user_id purpose now =
    update_tokens
      (λ t.
        t.user_id == user_id
        && (purpose_beq t.purpose purpose && (is_null t.consumed_at && is_null t.revoked_at)))
      (λ t. record t { revoked_at = some now })
