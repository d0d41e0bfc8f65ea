-- ===== src/Transcoder/Tests.antt =====
-- Concrete runs of the transcoder, and its theorems at concrete inputs.
use oxide_cast.Prelude.{ℕ, ◌+◌, ◌≡◌, refl, true, false, some, [], ◌∷◌, String, length, err, arith}
use oxide_cast.HashMap.{nat_eq, get, insert, contains_key}
use oxide_cast.Transcoder.Job.{
  TranscodingRequest, rtmp_source, hls_output, new_job, set_status, set_process, cancelled,
}
use oxide_cast.Transcoder.Manager.{
  TranscoderManager, new, start_transcoding, update_job_status, stop_transcoding, acquire, launch,
  select, cleanup_job, feeder_ends, job_not_found, unknown_profile,
}
use oxide_cast.Transcoder.Manager.Steps.{starts, acquires, launches, Reachable, here, after}
use oxide_cast.Transcoder.Manager.Permits.{holders, Reachable-new-Balanced}
use oxide_cast.Transcoder.Manager.Orphans.{orphans}
use oxide_cast.Transcoder.Manager.Stops.{stop-cleanup, launch-stop}

abbrev request : TranscodingRequest String
request = record {
  stream_key = "live";
  input_source = rtmp_source "live";
  profiles = [];
  output_format = hls_output 6;
  realtime = true;
  hardware_acceleration = false;
}

abbrev two_slots : TranscoderManager ℕ ℕ String
two_slots = new [] 2

abbrev queued : TranscoderManager ℕ ℕ String
queued = (start_transcoding 0 7 0 request two_slots).1

abbrev watched : TranscoderManager ℕ ℕ String
watched = launch 0 (some 100) (acquire 0 queued)

unknown :
    (start_transcoding 0 7 0 (record request { profiles = "1080p" ∷ [] }) two_slots).0
    ≡ err unknown_profile
unfolding start_transcoding contains_key
unknown = refl

one_permit : watched.permits ≡ 1
unfolding start_transcoding acquire launch update_job_status
one_permit = refl

Reachable-new-Balanced_example : watched.permits + holders watched.tasks ≡ 2
Reachable-new-Balanced_example = Reachable-new-Balanced [] 2 watched (
    after (after (after here (starts 0 7 0 request two_slots)) (acquires 0 queued))
      (launches 0 (some 100) (acquire 0 queued)))

orphans_example :
    (m : TranscoderManager ℕ ℕ String) × Reachable two_slots m
    × (m.permits ≡ 2)
    × (length m.processes ≡ 50)
orphans_example = orphans [] 2 50 0 request (omega arith) refl

stop-cleanup_example :
    (stop_transcoding 7 (cleanup_job 0 (select 0 feeder_ends watched))).0 ≡ err job_not_found
unfolding start_transcoding acquire launch select update_job_status
stop-cleanup_example = stop-cleanup 0 7 (select 0 feeder_ends watched) refl

launch-stop_example :
    let stopped = (stop_transcoding 7 queued).1 in
    let resumed = launch 0 (some 100) (acquire 0 stopped) in
    (get 7 stopped.active_jobs ≡ some (set_status cancelled (new_job 0 7 0 request)))
    × (get 7 resumed.active_jobs ≡ some (set_process 100 (new_job 0 7 0 request)))
unfolding start_transcoding insert get
launch-stop_example = launch-stop 0 7 100 (new_job 0 7 0 request) queued refl (omega arith) refl
