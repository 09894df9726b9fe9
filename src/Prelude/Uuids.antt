-- ===== src/Prelude/Uuids.antt =====
-- The test for a UUID that the routes share: services/tenant/src/delegation.routes.ts.
use Prim.Native.Nat.{ℕ, zero, suc}
use mathlib.Core.Bool.{Bool, true, false, ◌&&◌, ◌||◌}
use mathlib.Core.List.{List, [], ◌∷◌}
use lms_saas.Prelude.Tests.{leb, nat_eq}
use lms_saas.Prelude.Texts.{Text}

abbrev is_hex : ℕ → Bool
is_hex u = (leb 48 u && leb u 57) || (leb 65 u && leb u 70) || (leb 97 u && leb u 102)

-- Groups of hexadecimal digits of the given sizes with `-` between them.
abbrev matches_groups : ℕ → List ℕ → Text → Bool
matches_groups zero [] [] = true
matches_groups zero (size ∷ sizes) (u ∷ s) = nat_eq u 45 && matches_groups size sizes s
matches_groups (suc n) sizes (u ∷ s) = is_hex u && matches_groups n sizes s
matches_groups _ _ _ = false

-- isUuid, on a string
abbrev pub is_uuid : Text → Bool
is_uuid s = matches_groups 8 (4 ∷ 4 ∷ 4 ∷ 12 ∷ []) s
