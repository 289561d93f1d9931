-- ===== src/Service/Message.antt =====
-- The messages of proto/traffic_generator.proto that the calls of server.cpp read and write.
use ngfwtraffic_gen.Common.{ℕ, String, Bool, true, false, Option, List}
use ngfwtraffic_gen.Common.Double.{Double}
use ngfwtraffic_gen.Imix.{Sampler, ImixEntryInternal, ImixEngine}
use ngfwtraffic_gen.Flow.{FlowScheduler}
use ngfwtraffic_gen.Metrics.{MetricsCollector}

-- `int32`.
pub data ℤ : Type 0 where
  pos : ℕ → ℤ
  negsuc : ℕ → ℤ

pub record StatusResponse : Type 0 where
  pub success : Bool
  pub message : String
  pub error_code : ℤ

-- An `IMIXEntry` has the fields of an `IMIXEntryInternal`; its share is a float, which a double holds.
pub record ImixEntry (W : Type 0) : Type 0 where
  pub packet_size : ℕ
  pub percentage : W
  pub protocol : String
  pub enable_checksum : Bool

pub record ImixConfig (W : Type 0) : Type 0 where
  pub entries : List (ImixEntry W)
  pub target_pps : ℕ
  pub duration_seconds : ℕ

pub record ProtoFlow : Type 0 where
  pub flow_id : ℕ
  pub src_ip : String
  pub dst_ip : String
  pub src_port : ℕ
  pub dst_port : ℕ
  pub protocol : String
  pub packet_size : ℕ
  pub pps : ℕ
  pub duration_seconds : ℕ
  pub dst_mac : String

pub record FlowConfig : Type 0 where
  pub flows : List ProtoFlow
  pub stateless : Bool

pub record TrafficGeneratorService (d : Double) (g : Sampler d.Carrier) : Type 0 where
  pub flow_scheduler : Option FlowScheduler
  pub imix_engine : Option (ImixEngine g)
  pub metrics_collector : Option (MetricsCollector d.Carrier)

abbrev pub ok : String → StatusResponse
ok message = record { success = true; message = message; error_code = pos 0 }

abbrev pub failed : ℤ → String → StatusResponse
failed error_code message = record { success = false; message = message; error_code = error_code }

unfoldable pub convert_proto_imix_entry : {W : Type 0} → ImixEntry W → ImixEntryInternal W
convert_proto_imix_entry entry = record {
  packet_size = entry.packet_size;
  percentage = entry.percentage;
  protocol = entry.protocol;
  enable_checksum = entry.enable_checksum;
}
