-- ===== src/Assessment/Grading.antt =====
-- Grading a response against its question, and the body that a candidate sees:
-- services/assessment/src/store.ts. A number of points counts hundredths, as the columns of
-- the schema do, and may be negative; sums are exact.
pub mod Sets
use lms_saas.Prelude.{
  ℤ, pos, Bool, true, false, not, ◌&&◌, ◌||◌, Option, none, some, List, [], ◌∷◌, ◌++◌, map, Text,
  text, text_eq, ◌==◌, any, length, nat_eq, if◌then◌else◌,
}
use lms_saas.Audit.Json.{
  Value, undefined, null, boolean, number, string, array, object, Values, no_values, value, Members,
  no_members, member,
}

pub data QuestionKind : Type 0 where
  multiple_choice multi_select true_false short_answer essay matching ordering fill_blank numeric :
      QuestionKind

-- `body.key`
abbrev pub field : Text → Members → Value
field key no_members = undefined
field key (member k v rest) = if k == key then v else field key rest

abbrev boolean_text : Bool → Text
boolean_text true = text "true"
boolean_text false = text "false"

-- An element of an array that is joined, and `joined` for the array.
abbrev mutual
  pub element_text : Value → Text
  element_text undefined = []
  element_text null = []
  element_text (boolean b) = boolean_text b
  element_text (number n) = n
  element_text (string s) = s
  element_text (array vs) = joined vs
  element_text (object fields) = text "[object Object]"

  pub joined : Values → Text
  joined no_values = []
  joined (value v no_values) = element_text v
  joined (value v (value w rest)) = element_text v ++ (text "," ++ joined (value w rest))

-- `String(value)`
abbrev pub string_of : Value → Text
string_of undefined = text "undefined"
string_of null = text "null"
string_of v = element_text v

abbrev pub texts : Values → List Text
texts no_values = []
texts (value v rest) = string_of v ∷ texts rest

abbrev pub includes : List Text → Text → Bool
includes xs x = any (λ y. y == x) xs

abbrev pub includes_all : List Text → List Text → Bool
includes_all xs [] = true
includes_all xs (y ∷ ys) = includes xs y && includes_all xs ys

-- The rest of sameSet, on two arrays.
unfoldable pub same_texts : List Text → List Text → Bool
same_texts a b = if not (nat_eq (length a) (length b)) then false else includes_all a b

-- sameSet
unfoldable pub same_set : Value → Value → Bool
same_set (array a) (array b) = same_texts (texts a) (texts b)
same_set _ _ = false

-- What grading finds: points awarded and whether the answer is right, unless a person decides.
pub record GradeOutcome : Type 0 where
  pub awarded : Option ℤ
  pub is_correct : Option Bool
  pub manual : Bool

abbrev pub correct : ℤ → Bool → GradeOutcome
correct points right = record {
  awarded = some (if right then points else pos 0);
  is_correct = some right;
  manual = false;
}

abbrev pub by_hand : GradeOutcome
by_hand = record { awarded = none; is_correct = none; manual = true }

-- `value === b`
abbrev pub is_boolean : Bool → Value → Bool
is_boolean true (boolean true) = true
is_boolean false (boolean false) = true
is_boolean _ _ = false

abbrev grade_true_false : Value → Value → ℤ → GradeOutcome
grade_true_false (boolean key) given points = correct points (is_boolean key given)
grade_true_false _ given points = by_hand

abbrev grade_choice : Value → Value → ℤ → GradeOutcome
grade_choice undefined given points = by_hand
grade_choice key given points = correct points (string_of given == string_of key)

abbrev grade_select : Value → Value → ℤ → GradeOutcome
grade_select (array keys) given points = correct points (same_set given (array keys))
grade_select _ given points = by_hand

-- What grading uses of the language: `trim` and `toLowerCase`, which rest on Unicode's tables,
-- `Number(value)`, none for NaN, and `Math.abs(given - answer) <= tolerance`, the numbers as the texts
-- that they print as.
pub record Runtime : Type 0 where
  pub trim : Text → Text
  pub to_lower_case : Text → Text
  pub to_number : Value → Option Text
  pub is_within : Text → Text → Text → Bool

-- `String(value ?? "")`
abbrev text_or_empty : Value → Text
text_or_empty undefined = []
text_or_empty null = []
text_or_empty v = string_of v

abbrev tolerance_of : Value → Text
tolerance_of (number n) = n
tolerance_of _ = text "0"

module _ (runtime : Runtime) where
  -- normalize
  abbrev normalize : Value → Bool → Text
  normalize v case_sensitive =
      let s = runtime.trim (text_or_empty v) in
      if case_sensitive then s else runtime.to_lower_case s

  abbrev normalize_all : Values → Bool → List Text
  normalize_all no_values case_sensitive = []
  normalize_all (value v rest) case_sensitive =
      normalize v case_sensitive ∷ normalize_all rest case_sensitive

  abbrev grade_short : Value → Bool → Value → ℤ → GradeOutcome
  grade_short (array answers) case_sensitive given points =
      correct points
        (includes (normalize_all answers case_sensitive) (normalize given case_sensitive))
  grade_short _ case_sensitive given points = by_hand

  abbrev grade_number : Value → Text → Option Text → ℤ → GradeOutcome
  grade_number (number answer) tolerance none points = correct points false
  grade_number (number answer) tolerance (some given) points =
      correct points (runtime.is_within given answer tolerance)
  grade_number _ tolerance given points = by_hand

  -- gradeResponse
  unfoldable pub grade_response : QuestionKind → Members → Members → ℤ → GradeOutcome
  grade_response true_false body response points =
      grade_true_false (field (text "correct") body) (field (text "value") response) points
  grade_response multiple_choice body response points =
      grade_choice (field (text "correct") body) (field (text "choice") response) points
  grade_response multi_select body response points =
      grade_select (field (text "correct") body) (field (text "choices") response) points
  grade_response short_answer body response points =
      grade_short (field (text "answers") body)
        (is_boolean true (field (text "caseSensitive") body)) (field (text "text") response) points
  grade_response numeric body response points =
      grade_number (field (text "answer") body) (tolerance_of (field (text "tolerance") body))
        (runtime.to_number (field (text "value") response)) points
  grade_response _ body response points = by_hand

-- A key that grading reads.
abbrev pub is_answer_key : Text → Bool
is_answer_key key = (key == text "correct") || (key == text "answer") || (key == text "answers")

-- secureBody
unfoldable pub secure_body : Members → Members
secure_body no_members = no_members
secure_body (member k v rest) =
    let kept = secure_body rest in if is_answer_key k then kept else member k v kept
