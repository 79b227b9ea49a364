-- ===== src/Status.antt =====
-- The enumerations of app/api/schemas/common.py whose values the services store, and their tests.

pub data SchemaStatus : Type 0 where
  draft active deprecated : SchemaStatus

pub data DocumentStatus : Type 0 where
  pending parsing guarding extracting scoring routing delivering completed review rejected error
        cancelled tombstone :
      DocumentStatus

pub data ReviewStatus : Type 0 where
  pending in_progress accepted corrected rejected : ReviewStatus

pub data DlqStatus : Type 0 where
  pending retrying resolved expired : DlqStatus

pub data FailureReason : Type 0 where
  parse_failed parse_empty_output guardrail_block injection_detected llm_unavailable
        extraction_failed low_confidence pipeline_timeout webhook_delivery_failed unknown :
      FailureReason
