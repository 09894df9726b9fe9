-- ===== src/Audit/Tests.antt =====
-- Logs of two tenants under a toy digest, the length of the text.
use lms_saas.Prelude.{
  ◌+◌, ◌≡◌, ◌≢◌, refl, false, none, some, List, [], ◌∷◌, map, Text, text, text_eq, ◌==◌, eq_iff,
  length, arith, Lacks,
}
use lms_saas.Audit.Json.{no_members, member, string}
use lms_saas.Audit.Chain.{AuditEntry, canonical_payload, broken, hash_mismatch, verify_chain}
use lms_saas.Audit.Store.{NewAuditInput, Appended, tenant_chain, append, verify, run}
use lms_saas.Audit.Integrity.Growth.{IsIntact, run-IsIntact}
use lms_saas.Audit.Integrity.Evidence.{verify_chain-pinned, verify_chain-altered}

abbrev digest : Text → Text
digest t = (200 + length t) ∷ []

abbrev login : NewAuditInput
login = record {
  action = text "login";
  target_type = none;
  target_id = none;
  actor_id = some (text "ada");
  metadata =
      some (
        member (text "b") (string (text "x\"y"))
          (member (text "a") (string (text "z")) no_members));
  ip_address = none;
}

abbrev at : Text → Text → Appended
at id tenant = record { id = id; now = text "0"; tenant = tenant; input = login }

abbrev history : List Appended
history = at (text "1") (text "t") ∷ at (text "2") (text "u") ∷ at (text "3") (text "t") ∷ []

abbrev own_history : List Appended
own_history = at (text "1") (text "t") ∷ at (text "3") (text "t") ∷ []

abbrev log : List Appended → List AuditEntry
log h = tenant_chain (run digest [] h) (text "t")

differs : (a b : Text) → (a == b) ≡ false → a ≢ b
differs a b h e = ground (arith, h, eq_iff a b)

run-IsIntact_example : IsIntact digest (run digest [] history) (text "t")
unfolding verify verify_chain
run-IsIntact_example = run-IsIntact digest [] history (text "t") refl

digest-Lacks : (t : Text) → Lacks b'{' (digest t)
digest-Lacks t = ground arith

digest-nonempty : (t : Text) → digest t ≢ []
digest-nonempty t = ground arith

verify_chain-pinned_example :
    map canonical_payload (log history) ≡ map canonical_payload (log own_history)
unfolding verify_chain run canonical_payload
verify_chain-pinned_example =
    verify_chain-pinned digest digest-Lacks digest-nonempty (log history) (log own_history) 2 2 refl
      refl refl
      (
        ((λ h. refl), ((λ h. absurd (differs _ _ refl h)), tt)),
        (((λ h. absurd (differs _ _ refl h)), ((λ h. refl), tt)), tt),
      )

abbrev original : AuditEntry
original = (append digest [] (text "1") (text "0") (text "t") login).0

abbrev forged : AuditEntry
forged = record original { action = text "logout" }

verify_chain-altered_example : verify_chain digest (forged ∷ []) ≡ broken 0 (text "1") hash_mismatch
unfolding verify_chain append canonical_payload
verify_chain-altered_example =
    verify_chain-altered digest 1 [] [] original forged refl refl refl (differs _ _ refl)
      (λ h. absurd (differs _ _ refl h))
