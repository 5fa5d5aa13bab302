-- ===== src/Summary/Coverage.antt =====
-- Which messages a stored summary covers, and which are kept beside it: `prepare` of
-- summarization.py.
use xymphony_voice.Base.Text.{Text}
