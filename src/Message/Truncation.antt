-- ===== src/Message/Truncation.antt =====
-- When the truncation of an error message (python.cpp) works, and what it keeps.
use pyreticulate.Bytes.{Bytes}
