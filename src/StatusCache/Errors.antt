-- ===== src/StatusCache/Errors.antt =====
-- The value-free failures of tool-runtime-core/src/credential_status_cache.rs.

use magic_run.StatusCache.Error.{CredentialStatusCacheErrorCode, CredentialStatusCacheError}

abbrev pub invalid_process_epoch : CredentialStatusCacheError
invalid_process_epoch = record {
  code = CredentialStatusCacheErrorCode.invalid_process_epoch;
  field = "status_cache.process_epoch";
  message = "the process epoch must be nonzero";
}

abbrev pub invalid_policy_revision : CredentialStatusCacheError
invalid_policy_revision = record {
  code = CredentialStatusCacheErrorCode.invalid_policy_revision;
  field = "status_cache.policy_revision";
  message = "the credential policy revision must be nonzero";
}

abbrev pub process_epoch_mismatch : CredentialStatusCacheError
process_epoch_mismatch = record {
  code = CredentialStatusCacheErrorCode.process_epoch_mismatch;
  field = "status_cache.process_epoch";
  message = "the verified-status cache belongs to a different process epoch";
}

abbrev pub invalid_directory_revision : CredentialStatusCacheError
invalid_directory_revision = record {
  code = CredentialStatusCacheErrorCode.invalid_directory_revision;
  field = "status_cache.directory_revision";
  message = "the credential directory revision must be nonzero";
}

abbrev pub invalid_ttl : CredentialStatusCacheError
invalid_ttl = record {
  code = CredentialStatusCacheErrorCode.invalid_ttl;
  field = "status_cache.ttl";
  message = "the verified status TTL must be positive and within its fixed ceiling";
}

abbrev pub wrong_operation : CredentialStatusCacheError
wrong_operation = record {
  code = CredentialStatusCacheErrorCode.wrong_operation;
  field = "status_cache.operation";
  message = "the status cache operation requires the declared lifecycle operation";
}

abbrev pub directory_target_mismatch : CredentialStatusCacheError
directory_target_mismatch = record {
  code = CredentialStatusCacheErrorCode.directory_target_mismatch;
  field = "status_cache.directory";
  message = "the credential directory does not belong to the lifecycle target";
}

abbrev pub directory_unavailable : CredentialStatusCacheError
directory_unavailable = record {
  code = CredentialStatusCacheErrorCode.directory_unavailable;
  field = "status_cache.directory";
  message = "the credential directory could not be revalidated";
}

abbrev pub uncacheable_status : CredentialStatusCacheError
uncacheable_status = record {
  code = CredentialStatusCacheErrorCode.uncacheable_status;
  field = "status_cache.result";
  message = "only verified ready status may enter the credential status cache";
}

abbrev pub observation_plan_mismatch : CredentialStatusCacheError
observation_plan_mismatch = record {
  code = CredentialStatusCacheErrorCode.observation_plan_mismatch;
  field = "status_cache.observation";
  message = "the status result belongs to a different lifecycle observation";
}

abbrev pub stale_observation : CredentialStatusCacheError
stale_observation = record {
  code = CredentialStatusCacheErrorCode.stale_observation;
  field = "status_cache.observation";
  message = "the status observation was invalidated before publication";
}

abbrev pub capacity_exceeded : CredentialStatusCacheError
capacity_exceeded = record {
  code = CredentialStatusCacheErrorCode.capacity_exceeded;
  field = "status_cache.entries";
  message = "the credential status cache reached its fixed entry limit";
}

abbrev pub lock_poisoned : CredentialStatusCacheError
lock_poisoned = record {
  code = CredentialStatusCacheErrorCode.lock_poisoned;
  field = "status_cache";
  message = "the credential status cache is unavailable";
}
