-- ===== src/Calendar/Escapes.antt =====
-- What a calendar client reads back of an escaped text: `escapeText` of services/calendar/src/ical.ts.
use lms_saas.Prelude.{
  ℕ, ◌≡◌, refl, sym, ap, subst, inl, inr, Bool-cases, Bool, true, false, [], ◌∷◌, Text, Lacks,
  nat_eq, nat_eq_iff, if◌then◌else◌, arith,
}
use lms_saas.Calendar.Feed.{replace_newlines, escape_marks, escape_text}

-- The value of a text that is read: a backslash gives `\n` and `\N` a newline and any other unit
-- itself. The flag says that a backslash came before.
abbrev pub unescape : Bool → Text → Text
unescape true [] = 92 ∷ []
unescape false [] = []
unescape true (u ∷ s) =
    (if nat_eq u 110 then 10 else if nat_eq u 78 then 10 else u) ∷ unescape false s
unescape false (u ∷ s) = if nat_eq u 92 then unescape true s else u ∷ unescape false s

-- A text with each CRLF as one newline.
abbrev pub with_newlines : Text → Text
with_newlines s = replace_newlines (10 ∷ []) false s

escaped : Bool → Text → Text
escaped held s = unescape false (replace_newlines (92 ∷ 110 ∷ []) held (escape_marks s))

-- A unit that no pass replaces.
unescape-plain :
    (held : Bool) (u : ℕ) (s : Text)
    → nat_eq u 92 ≡ false
    → nat_eq u 59 ≡ false
    → nat_eq u 44 ≡ false
    → nat_eq u 10 ≡ false
    → nat_eq u 13 ≡ false
    → escaped false s ≡ replace_newlines (10 ∷ []) false s
    → escaped held (u ∷ s) ≡ replace_newlines (10 ∷ []) held (u ∷ s)
unfolding escaped
unescape-plain true u s a b c d e h =
    rw (a, escape_marks) (rw b (rw c (rw d (rw e (rw a (ap (λ t. 13 ∷ u ∷ t) h))))))
unescape-plain false u s a b c d e h =
    rw (a, escape_marks) (rw b (rw c (rw d (rw e (rw a (ap (λ t. u ∷ t) h))))))

-- What a client would read is the text with its newlines.
abbrev IsRead : Bool → Text → Type 0
IsRead held s = escaped held s ≡ replace_newlines (10 ∷ []) held s

IsRead-backslash : (held : Bool) (s : Text) → IsRead false s → IsRead held (92 ∷ s)
unfolding escaped
IsRead-backslash true s h = ap (λ t. 13 ∷ 92 ∷ t) h
IsRead-backslash false s h = ap (λ t. 92 ∷ t) h

IsRead-semicolon : (held : Bool) (s : Text) → IsRead false s → IsRead held (59 ∷ s)
unfolding escaped
IsRead-semicolon true s h = ap (λ t. 13 ∷ 59 ∷ t) h
IsRead-semicolon false s h = ap (λ t. 59 ∷ t) h

IsRead-comma : (held : Bool) (s : Text) → IsRead false s → IsRead held (44 ∷ s)
unfolding escaped
IsRead-comma true s h = ap (λ t. 13 ∷ 44 ∷ t) h
IsRead-comma false s h = ap (λ t. 44 ∷ t) h

IsRead-newline : (held : Bool) (s : Text) → IsRead false s → IsRead held (10 ∷ s)
unfolding escaped
IsRead-newline true s h = ap (λ t. 10 ∷ t) h
IsRead-newline false s h = ap (λ t. 10 ∷ t) h

IsRead-return : (held : Bool) (s : Text) → IsRead true s → IsRead held (13 ∷ s)
unfolding escaped
IsRead-return true s h = ap (λ t. 13 ∷ t) h
IsRead-return false s h = h

IsRead-all : (s : Text) (held : Bool) → IsRead held s
unfolding escaped
IsRead-all [] true = refl
IsRead-all [] false = refl
IsRead-all (u ∷ s) held =
    let at : (v : ℕ) → nat_eq u v ≡ true → IsRead held (v ∷ s) → IsRead held (u ∷ s) =
      λ v same. subst (λ w. IsRead held (w ∷ s)) (sym ((nat_eq_iff u v).0 same)) in
    let rest = IsRead-all s false in
    elim (Bool-cases (nat_eq u 92)) [
      | inl a ↦ at 92 a (IsRead-backslash held s rest)
      | inr a ↦ elim (Bool-cases (nat_eq u 59)) [
        | inl b ↦ at 59 b (IsRead-semicolon held s rest)
        | inr b ↦ elim (Bool-cases (nat_eq u 44)) [
          | inl c ↦ at 44 c (IsRead-comma held s rest)
          | inr c ↦ elim (Bool-cases (nat_eq u 10)) [
            | inl d ↦ at 10 d (IsRead-newline held s rest)
            | inr d ↦ elim (Bool-cases (nat_eq u 13)) [
              | inl e ↦ at 13 e (IsRead-return held s (IsRead-all s true))
              | inr e ↦ unescape-plain held u s a b c d e rest
            ]
          ]
        ]
      ]
    ]

Lacks-replace_newlines :
    (held : Bool) (s : Text) → Lacks 10 (replace_newlines (92 ∷ 110 ∷ []) held s)
Lacks-replace_newlines true [] = ground arith
Lacks-replace_newlines false [] = tt
Lacks-replace_newlines true (u ∷ s) =
    ground (arith, nat_eq_iff u 10, Lacks-replace_newlines true s, Lacks-replace_newlines false s)
Lacks-replace_newlines false (u ∷ s) =
    ground (arith, nat_eq_iff u 10, Lacks-replace_newlines true s, Lacks-replace_newlines false s)

-- Escaping loses nothing and stays on its line: a calendar client reads an escaped text back as the
-- text with each CRLF as one newline, and no newline occurs in the escaped text.
pub unescape-escape_text :
    (s : Text) → (unescape false (escape_text s) ≡ with_newlines s) × Lacks 10 (escape_text s)
unfolding escape_text escaped
unescape-escape_text s = (IsRead-all s false, Lacks-replace_newlines false (escape_marks s))
