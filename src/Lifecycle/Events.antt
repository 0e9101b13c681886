-- ===== src/Lifecycle/Events.antt =====
-- The calls by which a thread becomes a real-time task, runs as one and stops being one, and those
-- that let time pass.
use adaptive_liblitmus.Base.{◌≡◌, Bool, true, false, ◌∷◌}
use adaptive_liblitmus.Kernel.{Call, Log}

abbrev pub is_event : Call → Bool
is_event (Call.set_rt_task_param pid p) = true
is_event (Call.set_scheduler pid policy) = true
is_event Call.complete_job = true
is_event (Call.wait_for_job_release n) = true
is_event Call.wait_for_ts_release = true
is_event (Call.release_ts delay) = true
is_event (Call.litmus_lock od) = true
is_event (Call.litmus_unlock od) = true
is_event (Call.od_open fd t i c) = true
is_event (Call.od_close od) = true
is_event (Call.exec args) = true
is_event (Call.sleep n) = true
is_event c = false

-- An observation of a log that other calls do not change.
abbrev pub IsBlind : {B : Type 0} → (Log → B) → Type 0
IsBlind obs = (c : Call) (l : Log) → is_event c ≡ false → obs (c ∷ l) ≡ obs l
