-- ===== src/Database/Audit.antt =====
-- The audit log, asb_api/db/audit.py: one statement on the table, whose columns are those that the
-- code fills. Python's `json.dumps` is a parameter.
use asb_cloud_api.Base.{ℕ, String, Option, none, some, List, [], ◌∷◌, ◌++◌}
use asb_cloud_api.Base.Dict.{Dict}

pub record AuditRow : Type 0 where
  pub key_id : Option String
  pub action : String
  pub domain : Option String
  pub request_id : Option String
  pub status : Option String
  pub duration_ms : Option ℕ
  pub metadata : Option String

-- `json.dumps(metadata) if metadata else None`
abbrev metadata_text : (Dict String String → String) → Option (Dict String String) → Option String
metadata_text dumps none = none
metadata_text dumps (some []) = none
metadata_text dumps (some (m ∷ ms)) = some (dumps (m ∷ ms))

-- `AuditLogger.log`
unfoldable pub log :
    (Dict String String → String)
    → AuditRow
    → Option (Dict String String)
    → List AuditRow
    → List AuditRow
log dumps row metadata rows = rows ++ (record row { metadata = metadata_text dumps metadata } ∷ [])
