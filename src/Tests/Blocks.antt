-- ===== src/Tests/Blocks.antt =====
-- The blockchain monitor on samples.
use dappctrl.Bc.Jobs.Lookup.{
  JobsMaker, event_topic, channel_topped_up, on_existing_channel_event, find_channel_id, topic,
  lookup, open_block_number, has_open_block, is_channel_of, event_of, produce_common,
}
use dappctrl.Bc.Jobs.Producers.{make_jobs, uncounted, agent_jobs}
use dappctrl.Bc.Jobs.Asked.{AreMade}
use dappctrl.Bc.Jobs.Made.{make_jobs-IsMade}
use dappctrl.Job.Add.{new_job}
use dappctrl.Base.{
  ◌+◌, ◌-◌, ◌^◌, ◌<◌, ◌≡◌, refl, arith, true, some, List, [], ◌∷◌, All, any, ◌==◌, Option,
  if◌then◌else◌, find?,
}
use dappctrl.Data.{
  ServiceStatus, JobStatus, Job, JobEthLog, agent_after_channel_create, agent_after_channel_top_up,
  uint32_value, RelatedType, uint64_value, bc_monitor, eth_log,
}
use dappctrl.Store.{World, answering, monad, ok, pure}
use dappctrl.Bc.Range.{
  Settings, safe_sub, offerings_range, offerings_range_of_interest, agent_rounds,
}
use dappctrl.Bc.Bounds.{AreConsecutive, agent_rounds-AreConsecutive}
use dappctrl.Bc.Monitor.{Monitor}
use dappctrl.Tests.Samples.{sample_db, sample_job, sample_config, sample_stamp}

abbrev sample_settings : Settings
sample_settings = record {
  min_confirmations = ok 2;
  block_limit = ok 10;
  last_processed_block = ok 100;
  offerings_fresh_blocks = ok 50;
  last_back_search_block = ok 120;
}

latest_blocks : All (λ n. n < 2 ^ 64 - 1) (105 ∷ 200 ∷ 200 ∷ [])
latest_blocks = (omega arith, (omega arith, (omega arith, tt)))

agent_rounds-AreConsecutive_example :
    AreConsecutive 100 (agent_rounds 2 10 (105 ∷ 200 ∷ 200 ∷ []) 100)
agent_rounds-AreConsecutive_example =
    agent_rounds-AreConsecutive 2 10 (105 ∷ 200 ∷ 200 ∷ []) 100 (omega arith) (omega arith)
      latest_blocks

searched : offerings_range_of_interest sample_settings 130 ≡ ok (109, 119)
unfolding offerings_range_of_interest offerings_range safe_sub
searched = refl

abbrev sample_log : JobEthLog
sample_log = record { block = 101; bytes = []; topics = 1 ∷ []; tx_hash = 77 }

abbrev found_job : Job
found_job = sample_job JobStatus.active agent_after_channel_create

-- Two queries, of which the node answers the first with a log and the second with `second`.
abbrev sample_monitor : Option (List JobEthLog) → Monitor
sample_monitor second = record {
  queue = sample_config;
  stamp = λ n. record sample_stamp { uuid = 900 + n };
  latest_block = some 200;
  filter_logs = λ q. if q == 1 then some (sample_log ∷ []) else second;
  next_round = λ _. ok (1 ∷ 2 ∷ [], pure tt);
  jobs_for_log = λ _. ok (found_job ∷ []);
}

abbrev monitored : World
monitored = answering (sample_db ServiceStatus.active 0 [])

-- An agent's maker; every log has a block and a balance.
abbrev maker : JobsMaker
maker = record {
  psc_addr = 99;
  make_rating_job_after = 2;
  is_agent = true;
  new_id = λ n. 910 + n;
  of_address = λ a. a;
  of_hash = λ a. a;
  unpack_values = λ _ _. some (uint32_value 7 ∷ uint64_value 30 ∷ []);
}

-- The sample's channel is topped up.
abbrev top_up_log : JobEthLog
top_up_log = record {
  block = 8;
  bytes = [];
  topics = event_topic channel_topped_up ∷ 11 ∷ 12 ∷ 51 ∷ [];
  tx_hash = 3;
}

abbrev topped_world : World
topped_world = answering (sample_db ServiceStatus.active 0 [])

abbrev top_up_job : Job
top_up_job =
    new_job agent_after_channel_top_up RelatedType.channel 40 bc_monitor (eth_log top_up_log) 0

top_up_made : (make_jobs maker 0 top_up_log topped_world).0 ≡ ok (top_up_job ∷ [], 0)
unfolding make_jobs uncounted agent_jobs on_existing_channel_event find_channel_id topic lookup
    open_block_number has_open_block is_channel_of event_of event_topic produce_common new_job monad
    any find?
top_up_made = refl

make_jobs-IsMade_example : AreMade maker 0 top_up_log (top_up_job ∷ [])
make_jobs-IsMade_example =
    make_jobs-IsMade maker 0 top_up_log topped_world (top_up_job ∷ []) 0 top_up_made
