-- ===== src/Calendar/Tests.antt =====
-- A title over two lines, with every mark that is escaped.
use lms_saas.Prelude.{◌≡◌, false, ◌∷◌, ◌++◌, Text, text, Lacks}
use lms_saas.Calendar.Feed.{escape_text}
use lms_saas.Calendar.Escapes.{unescape, with_newlines, unescape-escape_text}

abbrev title : Text
title = text "Quiz; part 1, a\\b" ++ (13 ∷ 10 ∷ text "n")

unescape-escape_text_example :
    (unescape false (escape_text title) ≡ with_newlines title) × Lacks 10 (escape_text title)
unescape-escape_text_example = unescape-escape_text title
