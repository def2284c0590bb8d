-- ===== src/Node/Clamping.antt =====
-- The setpoints that reach the actuator do not compare as beyond the limits.
