-- ===== src/Actuator.antt =====
-- wavemaker_controller/src/indradrive_actuator.cpp, indradrive_actuator.hpp and
-- wavemaker_actuator.hpp: the actuator that the wavemaker node commands.
pub mod Types
pub mod Config
pub mod Commands
pub mod Valid
pub mod Holding
pub mod Tests
