-- ===== src/Registry/Rows.antt =====
-- The rows of go/controlplane/registry/types.go that the other parts read or write. Raw JSON, times and
-- float64 are parameters.
use purser.Prelude.{String}

module _ (Json Time Num : Type 0) where
  pub record Node : Type 0 where
    pub id : String
    pub hostname : String
    pub os : String
    pub arch : String
    pub ram_gb : Num
    pub vram_gb : Num
    pub state : String
    pub advertised_agent_addr : String
    pub advertised_inference_addr : String
    pub last_seen : Time
    pub hardware_profile : Json
    pub created_at : Time
    pub updated_at : Time

  pub record Plan : Type 0 where
    pub id : String
    pub model_id : String
    pub quantization : String
    pub cost : Num
    pub plan : Json
    pub created_at : Time

module _ (Json Time : Type 0) where
  pub record Deployment : Type 0 where
    pub id : String
    pub model_id : String
    pub plan_id : String
    pub state : String
    pub detail : Json
    pub created_at : Time
    pub updated_at : Time
