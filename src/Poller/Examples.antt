-- ===== src/Poller/Examples.antt =====
-- The theorems on the scheduler at concrete inputs.
use qiniu_exporter.Base.{String, [], false, none, true, ℕ, ◌*◌, ◌+◌, ◌<◌}
use qiniu_exporter.Base.Int.{pos, pos_part}
use qiniu_exporter.Base.Time.{hour, minute, zero_time}
use qiniu_exporter.Poller.{Job, next_delay}
use qiniu_exporter.Poller.Delays.{next_delay_positive}

abbrev hourly_job : Job
hourly_job = record {
  name = "kodo";
  resource = "";
  resources = [];
  phase_key = "kodo/logs";
  interval = pos hour;
  next = none;
  timeout = pos minute;
  run_on_start = false;
  run_on_start_when = none;
  has_run = true;
  has_run_resources = false;
}

abbrev some_hash : String → ℕ
some_hash key = 5 * hour + 7 * minute

-- A run that took two hours.
next_delay_positive_example :
    0 < pos_part (next_delay (pos hour) hourly_job zero_time (pos (2 * hour))).0
next_delay_positive_example = next_delay_positive (pos hour) hourly_job zero_time (pos (2 * hour))
