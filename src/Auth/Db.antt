-- ===== src/Auth/Db.antt =====
-- The state of one connection to auth.db, and the audit log: src/zglab_rag/auth/audit.py.
use zglab_rag.Prelude.{ℕ, Option, none, some, List, [], ◌∷◌, ◌++◌, Text, take}
use zglab_rag.Auth.Models.{
  UserRecord, SessionRecord, CredentialTokenRecord, AuditRow, AuditEvent, Call,
}

pub record AuthDb : Type 0 where
  pub users : List UserRecord
  pub sessions : List SessionRecord
  pub tokens : List CredentialTokenRecord
  pub audit : List AuditRow

abbrev pub empty_db : AuthDb
empty_db = record { users = []; sessions = []; tokens = []; audit = [] }

abbrev pub sanitize_client_hint : Option Text → Option Text
sanitize_client_hint none = none
sanitize_client_hint (some []) = none
sanitize_client_hint (some (c ∷ s)) = some (take 64 (c ∷ s))

-- `AuditLogger.record`: the row that it inserts.
unfoldable pub record_audit : Call → AuditEvent → Text → Option ℕ → Option Text → AuthDb → AuthDb
record_audit c event result user_id client_hint db = record db {
  audit =
      db.audit
      ++ record {
        created_at = c.now;
        event = event;
        user_id = user_id;
        request_id = c.request_id;
        result = result;
        client_hint = sanitize_client_hint client_hint;
      }
        ∷ [];
}
