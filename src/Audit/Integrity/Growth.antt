-- ===== src/Audit/Integrity/Growth.antt =====
-- Every log that the store itself has written verifies.
use lms_saas.Prelude.{
  ℕ, suc, ◌≡◌, refl, subst, sym, ap, ◌∙◌, Bool-cases, inl, inr, true, false, Option, none, some,
  List, [], ◌∷◌, ◌++◌, append-nil, Text, ◌==◌, eq_iff, option_eq, text_eq, filter-append, length,
  length-append, last?, arith,
}
use lms_saas.Audit.Chain.{
  AuditEntry, canonical_payload, compute_row_hash, intact, verify_from, verify_chain,
}
use lms_saas.Audit.Store.{of_tenant, tenant_chain, head_hash, append, verify, Appended, run}

-- The hash after a stretch of a chain.
abbrev pub end_hash : Option Text → List AuditEntry → Option Text
end_hash prev [] = prev
end_hash prev (e ∷ es) = end_hash (some e.row_hash) es

end_hash-last :
    (prev : Option Text) (e : AuditEntry) (es : List AuditEntry)
    → end_hash prev (e ∷ es) ≡ head_hash (last? (e ∷ es))
end_hash-last prev e [] = refl
end_hash-last prev e (f ∷ es) = end_hash-last (some e.row_hash) f es

pub end_hash-head : (es : List AuditEntry) → end_hash none es ≡ head_hash (last? es)
end_hash-head [] = refl
end_hash-head (e ∷ es) = end_hash-last none e es

module _ (sha256 : Text → Text) where
  verify_from-append :
      (prev : Option Text) (n m : ℕ) (es : List AuditEntry) (e : AuditEntry)
      → verify_from sha256 prev n es ≡ intact m
      → e.prev_hash ≡ end_hash prev es
      → compute_row_hash sha256 e.prev_hash e ≡ e.row_hash
      → verify_from sha256 prev n (es ++ (e ∷ [])) ≡ intact (suc m)
  unfolding verify_from
  verify_from-append prev n m [] e ok linked hashed = ground (
    arith,
    linked,
    hashed,
    eq_iff e.prev_hash prev,
    eq_iff (compute_row_hash sha256 prev e) e.row_hash,
  )
  verify_from-append prev n m (x ∷ es) e ok linked hashed =
      ground (arith, verify_from-append (some x.row_hash) (suc n) m es e)

  abbrev pub IsIntact : List AuditEntry → Text → Type 0
  IsIntact es tenant = verify sha256 es tenant ≡ intact (length (tenant_chain es tenant))

  own-IsIntact :
      (es : List AuditEntry) (e : AuditEntry) (tenant : Text)
      → of_tenant tenant e ≡ true
      → e.prev_hash ≡ head_hash (last? (tenant_chain es tenant))
      → compute_row_hash sha256 e.prev_hash e ≡ e.row_hash
      → IsIntact es tenant
      → IsIntact (es ++ (e ∷ [])) tenant
  unfolding verify verify_chain
  own-IsIntact es e tenant own linked hashed ok =
      let chain = tenant_chain es tenant in
      let grown : tenant_chain (es ++ (e ∷ [])) tenant ≡ chain ++ (e ∷ []) =
        ground (arith, filter-append (of_tenant tenant) es (e ∷ []), own) in
      let count : length (chain ++ (e ∷ [])) ≡ suc (length chain) =
        ground (arith, length-append chain (e ∷ [])) in
      subst (λ c. verify_from sha256 none 0 c ≡ intact (length c)) (sym grown)
        (verify_from-append none 0 (length chain) chain e ok (linked ∙ sym (end_hash-head chain))
            hashed
          ∙ ap intact (sym count))

  foreign-IsIntact :
      (es : List AuditEntry) (e : AuditEntry) (tenant : Text)
      → of_tenant tenant e ≡ false
      → IsIntact es tenant
      → IsIntact (es ++ (e ∷ [])) tenant
  unfolding verify verify_chain
  foreign-IsIntact es e tenant foreign ok =
      let kept : tenant_chain (es ++ (e ∷ [])) tenant ≡ tenant_chain es tenant = ground (
        arith,
        filter-append (of_tenant tenant) es (e ∷ []),
        foreign,
        append-nil (tenant_chain es tenant),
      ) in
      subst (λ c. verify_from sha256 none 0 c ≡ intact (length c)) (sym kept) ok

  append-IsIntact :
      (es : List AuditEntry) (a : Appended) (tenant : Text)
      → IsIntact es tenant
      → IsIntact (append sha256 es a.id a.now a.tenant a.input).1 tenant
  unfolding append verify verify_chain canonical_payload
  append-IsIntact es a tenant ok = elim (Bool-cases (a.tenant == tenant)) [
    | inl mine ↦
        own-IsIntact es (append sha256 es a.id a.now a.tenant a.input).0 tenant mine
          (ap (λ t. head_hash (last? (tenant_chain es t))) ((eq_iff a.tenant tenant).0 mine)) refl
          ok
    | inr foreign ↦
        foreign-IsIntact es (append sha256 es a.id a.now a.tenant a.input).0 tenant foreign ok
  ]

  -- However the appends of several tenants are interleaved, each tenant's log verifies, with every
  -- one of its rows checked, if it did so at the start.
  pub run-IsIntact :
      (es : List AuditEntry) (history : List Appended) (tenant : Text)
      → IsIntact es tenant
      → IsIntact (run sha256 es history) tenant
  unfolding run
  run-IsIntact es [] tenant ok = ok
  run-IsIntact es (a ∷ later) tenant ok =
      run-IsIntact (append sha256 es a.id a.now a.tenant a.input).1 later tenant
        (append-IsIntact es a tenant ok)
