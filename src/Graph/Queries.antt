-- ===== src/Graph/Queries.antt =====
-- What `query` returns.
use agent_memory_living_memo.Prelude.{List, Text_eq}
use agent_memory_living_memo.Prelude.Floats.{Floats}
