-- ===== src/Audit/Store.antt =====
-- services/audit/src/store.ts and store.memory.ts. The id and the timestamp of an append are its
-- arguments.
use lms_saas.Prelude.{
  ℕ, zero, suc, Bool, true, ◌&&◌, Option, none, some, List, [], ◌∷◌, ◌++◌, reverse, Text, ◌==◌,
  option_eq, text_eq, filter, last?,
}
use lms_saas.Audit.Json.{Members, no_members}
use lms_saas.Audit.Chain.{AuditEntry, compute_row_hash, VerifyResult, verify_chain}

-- NewAuditInput; a field that is absent or null is `none`.
pub record NewAuditInput : Type 0 where
  pub action : Text
  pub target_type : Option Text
  pub target_id : Option Text
  pub actor_id : Option Text
  pub metadata : Option Members
  pub ip_address : Option Text

-- AuditFilter, with a limit that is not negative.
pub record AuditFilter : Type 0 where
  pub actor_id : Option Text
  pub target_type : Option Text
  pub limit : Option ℕ

abbrev or_no_members : Option Members → Members
or_no_members none = no_members
or_no_members (some m) = m

abbrev pub of_tenant : Text → AuditEntry → Bool
of_tenant tenant e = e.tenant_id == tenant

-- tenantChain
abbrev pub tenant_chain : List AuditEntry → Text → List AuditEntry
tenant_chain es tenant = filter (of_tenant tenant) es

-- The hash of the last row of a chain.
abbrev pub head_hash : Option AuditEntry → Option Text
head_hash none = none
head_hash (some e) = some e.row_hash

-- `base`, as yet without a row hash.
abbrev pub base_entry : Text → Text → Text → NewAuditInput → Option Text → AuditEntry
base_entry id now tenant i prev = record {
  id = id;
  tenant_id = tenant;
  actor_id = i.actor_id;
  action = i.action;
  target_type = i.target_type;
  target_id = i.target_id;
  metadata = or_no_members i.metadata;
  ip_address = i.ip_address;
  created_at = now;
  prev_hash = prev;
  row_hash = [];
}

abbrev matches : Option Text → Option Text → Bool
matches none actual = true
matches (some wanted) actual = actual == some wanted

abbrev take : ℕ → List AuditEntry → List AuditEntry
take zero es = []
take (suc n) [] = []
take (suc n) (e ∷ es) = e ∷ take n es

-- `filter.limit ? rows.slice(0, filter.limit) : rows`
abbrev limited : Option ℕ → List AuditEntry → List AuditEntry
limited none es = es
limited (some zero) es = es
limited (some (suc n)) es = take (suc n) es

-- list
unfoldable pub list : List AuditEntry → Text → AuditFilter → List AuditEntry
list es tenant f = limited f.limit (
    reverse (
      filter (λ e. matches f.actor_id e.actor_id && matches f.target_type e.target_type)
        (tenant_chain es tenant)))

-- One append of a history: its id, its time, its tenant and what it records.
pub record Appended : Type 0 where
  pub id : Text
  pub now : Text
  pub tenant : Text
  pub input : NewAuditInput

module _ (sha256 : Text → Text) where
  abbrev pub sealed : AuditEntry → AuditEntry
  sealed e = record e { row_hash = compute_row_hash sha256 e.prev_hash e }

  -- append
  unfoldable pub append :
      List AuditEntry → Text → Text → Text → NewAuditInput → AuditEntry × List AuditEntry
  append es id now tenant i =
      let prev = head_hash (last? (tenant_chain es tenant)) in
      let entry = sealed (base_entry id now tenant i prev) in (entry, es ++ (entry ∷ []))

  -- verify
  unfoldable pub verify : List AuditEntry → Text → VerifyResult
  unfolding verify_chain
  verify es tenant = verify_chain sha256 (tenant_chain es tenant)

  unfoldable pub run : List AuditEntry → List Appended → List AuditEntry
  unfolding append
  run es [] = es
  run es (a ∷ later) = run (append es a.id a.now a.tenant a.input).1 later
