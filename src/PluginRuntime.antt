-- ===== src/PluginRuntime.antt =====
-- internal/pluginruntime: the write path of agent plugins. `Session` has the payload and the flusher,
-- `Writer` the asynchronous writer, `Router` the choice by write frequency, `Frequency`
-- how that is read from the configuration.
pub mod Session
pub mod Writer
pub mod Router
pub mod Frequency
mod Examples
