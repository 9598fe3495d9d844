-- ===== src/Spec/Redact.antt =====
-- crates/cvd-common/src/spec/redact.rs: the credentials leave the specification before it is stored.
use cvdbench.Base.{Option, none, some, Text, codes}
use cvdbench.Proto.Specs.{BenchSpec, ReadConfig, ConsistencyConfig, S3CredentialMaterial}

abbrev pub redacted_mark : Text
redacted_mark = codes "***"

unfoldable pub credentials_of : ConsistencyConfig → S3CredentialMaterial
credentials_of c = record {
  access_key = c.access_key;
  secret_key = c.secret_key;
  session_token = c.session_token;
}

unfoldable pub extract_credentials : BenchSpec → Option S3CredentialMaterial
unfolding credentials_of
extract_credentials spec = elim spec.read [
  | none ↦ none
  | some r ↦ elim r.s3_consistency_check [ none ↦ none | some c ↦ some (credentials_of c) ]
]

unfoldable pub redact_check : ConsistencyConfig → ConsistencyConfig
redact_check c = record c {
  access_key = redacted_mark;
  secret_key = redacted_mark;
  session_token = redacted_mark;
}

unfoldable pub redact_read : ReadConfig → ReadConfig
unfolding redact_check
redact_read r = record r {
  s3_consistency_check = elim r.s3_consistency_check [
    | none ↦ none
    | some c ↦ some (redact_check c)
  ];
}

-- `redact_in_place` and `redacted`.
unfoldable pub redacted : BenchSpec → BenchSpec
unfolding redact_read
redacted spec = record spec {
  read = elim spec.read [ none ↦ none | some r ↦ some (redact_read r) ];
}
