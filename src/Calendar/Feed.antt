-- ===== src/Calendar/Feed.antt =====
-- The iCalendar text of a list of events: services/calendar/src/ical.ts. `utc_date_time` and `utc_date`
-- stand for the calendar arithmetic of `Date` behind utcDateTime and utcDate.
use lms_saas.Prelude.{
  ℕ, Bool, true, false, Option, none, some, List, [], ◌∷◌, ◌++◌, Text, text, text_eq, ◌==◌, nat_eq,
  if◌then◌else◌,
}

-- The fields of a CalendarEventRecord that the feed reads.
pub record CalendarEvent : Type 0 where
  pub id : Text
  pub title : Text
  pub description : Option Text
  pub starts_at : Text
  pub ends_at : Option Text
  pub all_day : Bool

-- `value.replace(/c/g, out)`, for one code unit.
abbrev pub replace_unit : ℕ → Text → Text → Text
replace_unit c out [] = []
replace_unit c out (u ∷ s) =
    if nat_eq u c then out ++ replace_unit c out s else u ∷ replace_unit c out s

-- `value.replace(/\r?\n/g, out)`; the flag says that a carriage return is held back.
abbrev pub replace_newlines : Text → Bool → Text → Text
replace_newlines out true [] = 13 ∷ []
replace_newlines out false [] = []
replace_newlines out true (u ∷ s) =
    if nat_eq u 10
    then out ++ replace_newlines out false s
    else if nat_eq u 13
    then 13 ∷ replace_newlines out true s
    else 13 ∷ u ∷ replace_newlines out false s
replace_newlines out false (u ∷ s) =
    if nat_eq u 10
    then out ++ replace_newlines out false s
    else if nat_eq u 13
    then replace_newlines out true s
    else u ∷ replace_newlines out false s

abbrev pub escape_marks : Text → Text
escape_marks s =
    replace_unit 44 (92 ∷ 44 ∷ [])
      (replace_unit 59 (92 ∷ 59 ∷ []) (replace_unit 92 (92 ∷ 92 ∷ []) s))

-- escapeText
unfoldable pub escape_text : Text → Text
escape_text s = replace_newlines (92 ∷ 110 ∷ []) false (escape_marks s)

abbrev or_text : Option Text → Text → Text
or_text none fallback = fallback
or_text (some s) fallback = s

-- The lines, each with its CRLF.
abbrev join_lines : List Text → Text
join_lines [] = []
join_lines (line ∷ lines) = line ++ (13 ∷ 10 ∷ join_lines lines)

-- A line with a prefix for a text that is there and not empty.
abbrev optional_line : Text → (Text → Text) → Option Text → List Text
optional_line prefix print none = []
optional_line prefix print (some s) = if s == [] then [] else (prefix ++ print s) ∷ []

module _ (utc_date_time utc_date : Text → Text) where
  abbrev time_lines : CalendarEvent → List Text
  time_lines e =
      if e.all_day
      then (text "DTSTART;VALUE=DATE:" ++ utc_date e.starts_at)
        ∷ optional_line (text "DTEND;VALUE=DATE:") utc_date e.ends_at
      else (text "DTSTART:" ++ utc_date_time e.starts_at)
        ∷ optional_line (text "DTEND:") utc_date_time e.ends_at

  -- eventLines
  unfoldable pub event_lines : CalendarEvent → Text → List Text
  event_lines e stamp =
      (text "BEGIN:VEVENT"
        ∷ (text "UID:" ++ (e.id ++ text "@lms"))
        ∷ (text "DTSTAMP:" ++ stamp)
        ∷ time_lines e)
      ++ (((text "SUMMARY:" ++ escape_text e.title)
            ∷ optional_line (text "DESCRIPTION:") escape_text e.description)
          ++ (text "END:VEVENT" ∷ []))

  abbrev all_event_lines : List CalendarEvent → Text → List Text
  all_event_lines [] stamp = []
  all_event_lines (e ∷ events) stamp = event_lines e stamp ++ all_event_lines events stamp

  -- toICalendar
  unfoldable pub to_icalendar : List CalendarEvent → Option Text → Text → Text
  to_icalendar events cal_name stamp = join_lines (
      (text "BEGIN:VCALENDAR"
        ∷ text "VERSION:2.0"
        ∷ text "PRODID:-//LMS SaaS//Calendar//EN"
        ∷ text "CALSCALE:GREGORIAN"
        ∷ (text "X-WR-CALNAME:" ++ escape_text (or_text cal_name (text "LMS Calendar")))
        ∷ [])
      ++ (all_event_lines events stamp ++ (text "END:VCALENDAR" ∷ [])))
