-- ===== src/Wave.antt =====
-- wavemaker_controller/src/wave_math.cpp and wave_trajectory.cpp: the numbers of a wave.
pub mod Math
pub mod Trajectory
pub mod Lookup
pub mod Peak
pub mod Tests
