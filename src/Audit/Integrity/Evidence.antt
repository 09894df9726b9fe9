-- ===== src/Audit/Integrity/Evidence.antt =====
-- Tampering with a verified log is detected, up to a collision of the digest among the rows at hand.
use lms_saas.Prelude.{
  ℕ, suc, ◌+◌, ◌≡◌, ◌≢◌, refl, sym, ap, subst, ◌∙◌, ◌⊎◌, inl, inr, Option, none, some, List, [],
  ◌∷◌, ◌++◌, map, Text, eq_iff, option_eq, text_eq, length, last?, arith, All, All-map,
  All-rev_onto, rev_onto, map-rev_onto-injective, Lacks, append-separator-injective,
  append-cancel_left,
}
use lms_saas.Audit.Chain.{
  AuditEntry, or_empty, canonical_payload, compute_row_hash, intact, broken, hash_mismatch,
  verify_from, verify_chain,
}
use lms_saas.Audit.Store.{head_hash}
use lms_saas.Audit.Integrity.Growth.{end_hash, end_hash-head}

-- The text that a row's hash is the digest of.
abbrev pub row_text : AuditEntry → Text
row_text e = or_empty e.prev_hash ++ canonical_payload e

payload-brace : (e : AuditEntry) → (c : Text) × (canonical_payload e ≡ b'{' ∷ c)
unfolding canonical_payload
payload-brace e = (_, refl)

module _ (sha256 : Text → Text) where
  -- The digest tells the texts of two rows apart.
  abbrev pub IsApart : AuditEntry → AuditEntry → Type 0
  IsApart e f = sha256 (row_text e) ≡ sha256 (row_text f) → row_text e ≡ row_text f

  -- ... and those of each pair of rows from two logs.
  abbrev pub IsCollisionFree : List AuditEntry → List AuditEntry → Type 0
  IsCollisionFree es fs = All (λ e. All (IsApart e) fs) es

  -- A verified chain, read from its end; `head` is the hash of its last row.
  abbrev IsSpine : List AuditEntry → Option Text → Type 0
  IsSpine [] head = head ≡ none
  IsSpine (e ∷ es) head =
      (head ≡ some e.row_hash) × (sha256 (row_text e) ≡ e.row_hash) × IsSpine es e.prev_hash

  verify-IsSpine :
      (prev : Option Text) (n m : ℕ) (es back : List AuditEntry)
      → IsSpine back prev
      → verify_from sha256 prev n es ≡ intact m
      → IsSpine (rev_onto es back) (end_hash prev es)
  unfolding verify_from
  verify-IsSpine prev n m [] back spine ok = spine
  verify-IsSpine prev n m (e ∷ es) back spine ok =
      let linked : e.prev_hash ≡ prev = ground (arith, eq_iff e.prev_hash prev) in
      let hashed : compute_row_hash sha256 prev e ≡ e.row_hash =
        ground (arith, eq_iff (compute_row_hash sha256 prev e) e.row_hash) in
      verify-IsSpine (some e.row_hash) (suc n) m es (e ∷ back)
        (
          refl,
          ap (λ p. sha256 (or_empty p ++ canonical_payload e)) linked ∙ hashed,
          subst (IsSpine back) (sym linked) spine,
        )
        (ground (arith))

  module _ (lacks : (t : Text) → Lacks b'{' (sha256 t))
      (nonempty : (t : Text) → sha256 t ≢ []) where
    -- A previous hash is null or a digest.
    abbrev IsLink : Option Text → Type 0
    IsLink p = (p ≡ none) ⊎ ((t : Text) × (p ≡ some (sha256 t)))

    IsSpine-IsLink : (es : List AuditEntry) (head : Option Text) → IsSpine es head → IsLink head
    IsSpine-IsLink [] head h = inl h
    IsSpine-IsLink (e ∷ es) head h = inr (row_text e, h.0 ∙ ap some (sym h.1))

    link-Lacks : (p : Option Text) → IsLink p → Lacks b'{' (or_empty p)
    link-Lacks p (inl first) = subst (λ p. Lacks b'{' (or_empty p)) (sym first) tt
    link-Lacks p (inr (t, later)) = subst (λ p. Lacks b'{' (or_empty p)) (sym later) (lacks t)

    link_pinned : (p q : Option Text) → IsLink p → IsLink q → or_empty p ≡ or_empty q → p ≡ q
    link_pinned none none h k e = refl
    link_pinned none (some b) h (inl k) e = ground (arith, k)
    link_pinned none (some b) h (inr (t, k)) e = ground (arith, k, nonempty t)
    link_pinned (some a) none (inl h) k e = ground (arith, h)
    link_pinned (some a) none (inr (t, h)) k e = ground (arith, h, nonempty t)
    link_pinned (some a) (some b) h k e = ap some e

    -- The text of a row determines its previous hash and its payload.
    row_text-pinned :
        (e f : AuditEntry)
        → IsLink e.prev_hash
        → IsLink f.prev_hash
        → row_text e ≡ row_text f
        → (e.prev_hash ≡ f.prev_hash) × (canonical_payload e ≡ canonical_payload f)
    row_text-pinned e f h k same =
        let (c, c_is) = payload-brace e in
        let (d, d_is) = payload-brace f in
        let parts =
          append-separator-injective b'{' (or_empty e.prev_hash) (or_empty f.prev_hash) c d
            (link-Lacks e.prev_hash h) (link-Lacks f.prev_hash k)
            (ap (λ p. or_empty e.prev_hash ++ p) (sym c_is)
              ∙ same
              ∙ ap (λ p. or_empty f.prev_hash ++ p) d_is) in
        (
          link_pinned e.prev_hash f.prev_hash h k parts.0,
          c_is ∙ ap (λ p. b'{' ∷ p) parts.1 ∙ sym d_is,
        )

    spine-pinned :
        (es fs : List AuditEntry) (head : Option Text)
        → IsSpine es head
        → IsSpine fs head
        → IsCollisionFree es fs
        → map canonical_payload es ≡ map canonical_payload fs
    spine-pinned [] [] head h k free = refl
    spine-pinned [] (f ∷ fs) head h k free = ground arith
    spine-pinned (e ∷ es) [] head h k free = ground arith
    spine-pinned (e ∷ es) (f ∷ fs) head h k free =
        let row : row_text e ≡ row_text f = free.0.0 (h.1 ∙ ground arith ∙ sym k.1) in
        let (linked, same) =
          row_text-pinned e f (IsSpine-IsLink es e.prev_hash h.2)
            (IsSpine-IsLink fs f.prev_hash k.2) row in
        let rest = spine-pinned es fs e.prev_hash h.2 (subst (IsSpine fs) (sym linked) k.2) (
          All-map (λ e. All (IsApart e) (f ∷ fs)) (λ e. All (IsApart e) fs) es (λ e a. a.1)
            free.1) in
        ap (λ p. p ∷ map canonical_payload es) same ∙ ap (λ ps. canonical_payload f ∷ ps) rest

    -- The head hash pins the whole log: two logs that verify and end in the same row hash record the
    -- same payloads in the same order, so that no row was altered, inserted, removed or moved, if the
    -- digest is never empty, has no brace, and tells the rows of the two logs apart.
    pub verify_chain-pinned :
        (es fs : List AuditEntry) (n m : ℕ)
        → verify_chain sha256 es ≡ intact n
        → verify_chain sha256 fs ≡ intact m
        → head_hash (last? es) ≡ head_hash (last? fs)
        → IsCollisionFree es fs
        → map canonical_payload es ≡ map canonical_payload fs
    unfolding verify_chain
    verify_chain-pinned es fs n m ok ok' same free =
        map-rev_onto-injective canonical_payload es fs (
          spine-pinned (rev_onto es []) (rev_onto fs []) (end_hash none es)
            (verify-IsSpine none 0 n es [] refl ok)
            (subst (IsSpine (rev_onto fs [])) (end_hash-head fs ∙ sym same ∙ sym (end_hash-head es))
              (verify-IsSpine none 0 m fs [] refl ok'))
            (All-rev_onto (λ e. All (IsApart e) (rev_onto fs [])) es []
              (All-map (λ e. All (IsApart e) fs) (λ e. All (IsApart e) (rev_onto fs [])) es
                (λ e a. All-rev_onto (IsApart e) fs [] a tt) free)
              tt))

  -- An altered row no longer has the hash that it stores.
  altered-hash :
      (prev : Option Text) (e f : AuditEntry)
      → e.prev_hash ≡ prev
      → compute_row_hash sha256 prev e ≡ e.row_hash
      → f.prev_hash ≡ e.prev_hash
      → f.row_hash ≡ e.row_hash
      → canonical_payload f ≢ canonical_payload e
      → IsApart f e
      → compute_row_hash sha256 prev f ≢ f.row_hash
  altered-hash prev e f linked hashed prevs rows differ apart h =
      let at_f : row_text f ≡ or_empty prev ++ canonical_payload f =
        ap (λ p. or_empty p ++ canonical_payload f) (prevs ∙ linked) in
      let at_e : row_text e ≡ or_empty prev ++ canonical_payload e =
        ap (λ p. or_empty p ++ canonical_payload e) linked in
      let texts = apart (ap sha256 at_f ∙ h ∙ rows ∙ sym hashed ∙ ap sha256 (sym at_e)) in
      differ (
        append-cancel_left (or_empty prev) (canonical_payload f) (canonical_payload e)
          (sym at_f ∙ texts ∙ at_e))

  altered-from :
      (prev : Option Text) (n m : ℕ) (front back : List AuditEntry) (e f : AuditEntry)
      → verify_from sha256 prev n (front ++ (e ∷ back)) ≡ intact m
      → f.prev_hash ≡ e.prev_hash
      → f.row_hash ≡ e.row_hash
      → canonical_payload f ≢ canonical_payload e
      → IsApart f e
      → verify_from sha256 prev n (front ++ (f ∷ back))
        ≡ broken (n + length front) f.id hash_mismatch
  unfolding verify_from
  altered-from prev n m [] back e f ok prevs rows differ apart =
      let linked : e.prev_hash ≡ prev = ground (arith, eq_iff e.prev_hash prev) in
      let hashed : compute_row_hash sha256 prev e ≡ e.row_hash =
        ground (arith, eq_iff (compute_row_hash sha256 prev e) e.row_hash) in
      ground (
        arith,
        eq_iff f.prev_hash prev,
        eq_iff (compute_row_hash sha256 prev f) f.row_hash,
        prevs,
        linked,
        altered-hash prev e f linked hashed prevs rows differ apart,
      )
  altered-from prev n m (x ∷ front) back e f ok prevs rows differ apart =
      ground (arith, altered-from (some x.row_hash) (suc n) m front back e f)

  -- A row whose payload is altered where it stands, its stored hashes kept, is the row that the
  -- verification of a log that was intact reports, with `hash_mismatch` and the number of rows before
  -- it, if the digest tells the old text of the row from the new.
  pub verify_chain-altered :
      (n : ℕ) (front back : List AuditEntry) (e f : AuditEntry)
      → verify_chain sha256 (front ++ (e ∷ back)) ≡ intact n
      → f.prev_hash ≡ e.prev_hash
      → f.row_hash ≡ e.row_hash
      → canonical_payload f ≢ canonical_payload e
      → IsApart f e
      → verify_chain sha256 (front ++ (f ∷ back)) ≡ broken (length front) f.id hash_mismatch
  unfolding verify_chain
  verify_chain-altered n front back e f ok prevs rows differ apart =
      ground (arith, altered-from none 0 n front back e f ok prevs rows differ apart)
