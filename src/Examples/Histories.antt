-- ===== src/Examples/Histories.antt =====
-- A conversation that persistence/memory.py of packages/agent-runtime/src/xymphony_runtime stores and
-- the model is sent.
use xymphony_voice.Base.{[]}
use xymphony_voice.Base.Text.{codes}
use xymphony_voice.Persistence.{Buckets}
use xymphony_voice.Persistence.Replay.{Utterance, person, agent}

abbrev greeting : Utterance
greeting = record { id = 9; created_at = 100; turn_id = 1; speaker = person; text = codes "hello" }

abbrev reply : Utterance
reply = record {
  id = 10;
  created_at = 101;
  turn_id = 1;
  speaker = agent;
  text = codes "Good morning.";
}

abbrev empty : Buckets
empty = []
