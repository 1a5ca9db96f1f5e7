-- ===== src/Mqtt.antt =====
-- The daemon's MQTT client: ha-lua/internal/mqtt.
pub mod Topic
pub mod Broker
