-- ===== src/Audit/Json.antt =====
-- `stableStringify` of services/audit/src/chain.ts on JSON values, with the `JSON.stringify` of
-- strings that it rests on.
use lms_saas.Prelude.{
  ℕ, ◌+◌, ◌/◌, ◌%◌, Bool, true, false, not, ◌&&◌, ◌||◌, Option, none, some, List, [], ◌∷◌, ◌++◌,
  Text, text, ltb, leb, nat_eq, if◌then◌else◌,
}

-- A value of `unknown`, as JSON has it. A number is the text that `JSON.stringify` prints for it.
mutual
  pub data Value : Type 0 where
    undefined : Value
    null : Value
    boolean : Bool → Value
    number : Text → Value
    string : Text → Value
    array : Values → Value
    object : Members → Value

  pub data Values : Type 0 where
    no_values : Values
    value : Value → Values → Values

  pub data Members : Type 0 where
    no_members : Members
    member : Text → Value → Members → Members

abbrev between : ℕ → ℕ → ℕ → Bool
between low high u = leb low u && leb u high

abbrev is_high : Option ℕ → Bool
is_high none = false
is_high (some u) = between 55296 56319 u

abbrev is_low : Option ℕ → Bool
is_low none = false
is_low (some u) = between 56320 57343 u

abbrev hex_digit : ℕ → ℕ
hex_digit d = if ltb d 10 then 48 + d else 87 + d

abbrev unicode_escape : ℕ → Text
unicode_escape u =
    92
    ∷ 117
    ∷ hex_digit (u / 4096)
    ∷ hex_digit ((u / 256) % 16)
    ∷ hex_digit ((u / 16) % 16)
    ∷ hex_digit (u % 16)
    ∷ []

-- A surrogate without its partner.
abbrev is_lone : Option ℕ → ℕ → Option ℕ → Bool
is_lone before u after =
    (is_high (some u) && not (is_low after)) || (is_low (some u) && not (is_high before))

abbrev escaped : Option ℕ → ℕ → Option ℕ → Text
escaped before u after =
    if nat_eq u 34 || nat_eq u 92
    then 92 ∷ u ∷ []
    else if nat_eq u 8
    then text "\\b"
    else if nat_eq u 9
    then text "\\t"
    else if nat_eq u 10
    then text "\\n"
    else if nat_eq u 12
    then text "\\f"
    else if nat_eq u 13
    then text "\\r"
    else if ltb u 32 || is_lone before u after
    then unicode_escape u
    else u ∷ []

abbrev first? : Text → Option ℕ
first? [] = none
first? (u ∷ s) = some u

abbrev quote_from : Option ℕ → Text → Text
quote_from before [] = []
quote_from before (u ∷ s) = escaped before u (first? s) ++ quote_from (some u) s

-- `JSON.stringify` of a string.
abbrev pub quote : Text → Text
quote s = 34 ∷ (quote_from none s ++ (34 ∷ []))

-- The default order of `sort()`: by code units.
abbrev text_leb : Text → Text → Bool
text_leb [] t = true
text_leb (a ∷ s) [] = false
text_leb (a ∷ s) (b ∷ t) = ltb a b || (nat_eq a b && text_leb s t)

abbrev insert_member : Text × Text → List (Text × Text) → List (Text × Text)
insert_member m [] = m ∷ []
insert_member m (n ∷ rest) = if text_leb m.0 n.0 then m ∷ n ∷ rest else n ∷ insert_member m rest

abbrev sorted_members : List (Text × Text) → List (Text × Text)
sorted_members [] = []
sorted_members (m ∷ rest) = insert_member m (sorted_members rest)

-- `join(",")`
abbrev join : List Text → Text
join [] = []
join (s ∷ []) = s
join (s ∷ t ∷ rest) = s ++ (44 ∷ join (t ∷ rest))

abbrev member_text : Text × Text → Text
member_text m = quote m.0 ++ (58 ∷ m.1)

abbrev member_texts : List (Text × Text) → List Text
member_texts [] = []
member_texts (m ∷ rest) = member_text m ∷ member_texts rest

unfoldable mutual
  -- stableStringify
  pub stable_stringify : Value → Text
  stable_stringify undefined = text "null"
  stable_stringify null = text "null"
  stable_stringify (boolean true) = text "true"
  stable_stringify (boolean false) = text "false"
  stable_stringify (number shown) = shown
  stable_stringify (string s) = quote s
  stable_stringify (array vs) = 91 ∷ (join (stringify_all vs) ++ (93 ∷ []))
  stable_stringify (object ms) =
      123 ∷ (join (member_texts (sorted_members (stringify_members ms))) ++ (125 ∷ []))

  stringify_all : Values → List Text
  stringify_all no_values = []
  stringify_all (value v vs) = stable_stringify v ∷ stringify_all vs

  stringify_members : Members → List (Text × Text)
  stringify_members no_members = []
  stringify_members (member k v ms) = (k, stable_stringify v) ∷ stringify_members ms
