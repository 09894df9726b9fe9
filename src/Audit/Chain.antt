-- ===== src/Audit/Chain.antt =====
-- services/audit/src/chain.ts. The SHA-256 digest in lowercase hex (node:crypto) is the parameter
-- `sha256`.
use lms_saas.Prelude.{
  ℕ, suc, not, Option, none, some, List, [], ◌∷◌, ◌++◌, Text, text, ◌==◌, option_eq, text_eq,
  if◌then◌else◌,
}
use lms_saas.Audit.Json.{Value, null, string, object, Members, no_members, member, stable_stringify}

-- A ChainableEntry with its ChainLink.
pub record AuditEntry : Type 0 where
  pub id : Text
  pub tenant_id : Text
  pub actor_id : Option Text
  pub action : Text
  pub target_type : Option Text
  pub target_id : Option Text
  pub metadata : Members
  pub ip_address : Option Text
  pub created_at : Text
  pub prev_hash : Option Text
  pub row_hash : Text

abbrev nullable : Option Text → Value
nullable none = null
nullable (some s) = string s

abbrev payload : AuditEntry → Value
payload e = object (
    member (text "id") (string e.id) (
      member (text "tenantId") (string e.tenant_id) (
        member (text "actorId") (nullable e.actor_id) (
          member (text "action") (string e.action) (
            member (text "targetType") (nullable e.target_type) (
              member (text "targetId") (nullable e.target_id) (
                member (text "metadata") (object e.metadata) (
                  member (text "ipAddress") (nullable e.ip_address)
                    (member (text "createdAt") (string e.created_at) no_members)))))))))

-- canonicalPayload
unfoldable pub canonical_payload : AuditEntry → Text
unfolding stable_stringify
canonical_payload e = stable_stringify (payload e)

-- `prevHashHex ?? ""`
abbrev pub or_empty : Option Text → Text
or_empty none = []
or_empty (some h) = h

pub data VerifyReason : Type 0 where
  hash_mismatch broken_link : VerifyReason

-- VerifyResult: all rows checked, or the number checked, the first bad row's id and the reason.
pub data VerifyResult : Type 0 where
  intact : ℕ → VerifyResult
  broken : ℕ → Text → VerifyReason → VerifyResult

module _ (sha256 : Text → Text) where
  -- computeRowHash
  abbrev pub compute_row_hash : Option Text → AuditEntry → Text
  compute_row_hash prev e = sha256 (or_empty prev ++ canonical_payload e)

  -- The loop of `verifyChain`, from a previous hash and a count.
  unfoldable pub verify_from : Option Text → ℕ → List AuditEntry → VerifyResult
  verify_from prev checked [] = intact checked
  verify_from prev checked (e ∷ es) =
      let rest = verify_from (some e.row_hash) (suc checked) es in
      if not (e.prev_hash == prev)
      then broken checked e.id broken_link
      else if not (compute_row_hash prev e == e.row_hash)
      then broken checked e.id hash_mismatch
      else rest

  -- verifyChain
  unfoldable pub verify_chain : List AuditEntry → VerifyResult
  unfolding verify_from
  verify_chain es = verify_from none 0 es
