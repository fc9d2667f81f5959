-- ===== src/PluginRuntime/Session.antt =====
-- internal/pluginruntime/session/session.go and internal/pluginruntime/evidence/evidence.go
use goncho.Prelude.{String, Bool, List, Option}

pub record Message : Type 0 where
  pub role : String
  pub content : String
  pub synced : Bool

pub record MemorySession : Type 0 where
  pub key : String
  pub user_peer_id : String
  pub assistant_peer_id : String
  pub honcho_session_id : String
  pub messages : List Message

-- The host's flusher acts on an external state `W` and may fail with an error.
pub record Flusher (W E : Type 0) : Type 0 where
  pub flush_plugin_session : MemorySession → W → W × Option E
