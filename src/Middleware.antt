-- ===== src/Middleware.antt =====
-- inference_core/agents/middleware: the middleware around the calls of an agent's model.
pub mod Fallback
pub mod FallbackNames
pub mod RepeatedErrors
pub mod ToolSwitch
pub mod SwitchedModels
