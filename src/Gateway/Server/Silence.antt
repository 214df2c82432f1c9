-- ===== src/Gateway/Server/Silence.antt =====
-- A failure of the first backend that the gateway neither retries nor answers.
use gpu_platform_control_pla.Base.Text.{Text}
