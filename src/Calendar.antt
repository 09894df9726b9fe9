-- ===== src/Calendar.antt =====
-- services/calendar: the iCalendar feed (`Feed`: src/ical.ts).
pub mod Feed
pub mod Escapes
mod Tests
