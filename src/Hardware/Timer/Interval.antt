-- ===== src/Hardware/Timer/Interval.antt =====
-- The interval that the debug timer measures, against the time that has passed.
