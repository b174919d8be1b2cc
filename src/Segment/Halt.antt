-- ===== src/Segment/Halt.antt =====
-- `segment_run`: it stops once its stream has.
