-- ===== src/ToolRc.antt =====
-- lib/tool_rc.h: the outcome of an operation, which the tools exit with.
pub data ToolRc : Type 0 where
  success general_error option_error auth_error tcti_error unsupported : ToolRc
