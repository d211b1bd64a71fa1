-- ===== src/Tests/Services.antt =====
-- The tracker with its queue at concrete events.
use model_validation_operato.Base.{
  ◌≡◌, ◌<◌, refl, true, false, none, arith, string_eq, key_eq, nat_eq, less_text,
}
use model_validation_operato.Base.Map
use model_validation_operato.Tracker.Info.{new_model_validation_info, ModelValidationInfo}
use model_validation_operato.Tracker.State.{
  new_status_tracker, add_model_validation, process_pod_event, process_pod_event_common,
}
use model_validation_operato.Tracker.Queue.{
  DebouncedQueue, new_debounced_queue, add, fire, start_timer,
}
use model_validation_operato.Tracker.Queue.Calls.{WorkQueue, updates_done}
use model_validation_operato.Tracker.Queue.Counting.{IsCounted-new}
use model_validation_operato.Tracker.Queue.Work.{work, Turn}
use model_validation_operato.Tracker.Queue.Delivery.{adds}
use model_validation_operato.Tracker.Service.{Service, operate, deliver, new_service}
use model_validation_operato.Tracker.Service.Reach.{start, next, mv_added, Reach-IsCurrent}
use model_validation_operato.Tracker.Status.{
  do_update_status, new_status, collect_pod_tracking_info, compare_pod_slices, status_equal,
}
use model_validation_operato.Tracker.Status.Stored.{IsCurrent}
use model_validation_operato.Tracker.Status.Written.{update, status_after}
use model_validation_operato.Base.Sort.{sort_slice}
use model_validation_operato.Api.Hash.{
  get_config_hash, validation_config_hash, validation_config_text,
}
use model_validation_operato.Api.Method.{auth_method}
use model_validation_operato.Tests.Samples.{mv, same_text, key, drifted, listed, differ}
use model_validation_operato.Tracker.Service.Runs.{
  process_pod_event_delivers, stop_ends, IsStopping,
}
use model_validation_operato.Tests.Tracking.{tracked}
use model_validation_operato.Tests.Queues.{
  never_emptied, waiting, waiting-IsCounted, ran, ends, no_work, not_stopped, IsQuiet-new,
}
use model_validation_operato.Base.{◌⊎◌, ◌+◌, ◌≤◌, NamespacedName}
use model_validation_operato.Kube.{Fetch, not_found}
use model_validation_operato.Api.{ModelValidation}

abbrev work_queue : WorkQueue
work_queue = record { len = never_emptied; head = λ calls. none; num_requeues = λ item calls. 0 }

abbrev service : Service
service = record {
  tracker = tracked;
  queue = new_debounced_queue;
  stopping = false;
  working = true;
}

process_pod_event_delivers_example :
    (updates_done (ran 1 (fire 0 waiting)) ≡ true)
    × (adds key new_debounced_queue.calls < adds key (ran 1 (fire 0 waiting)).calls)
unfolding operate deliver process_pod_event process_pod_event_common string_eq key_eq Map.get
    Map.put add_model_validation new_status_tracker new_model_validation_info
process_pod_event_delivers_example =
    process_pod_event_delivers work_queue listed drifted service (differ "demo" "" refl)
      (λ h. ground arith) IsCounted-new IsQuiet-new not_stopped ends no_work

waiting-running : waiting.stopped ≡ false
unfolding new_debounced_queue add start_timer Map.get
waiting-running = refl

no_answer : NamespacedName → Fetch ModelValidation
no_answer _ = not_found

stop_ends_example :
    (6 + work (ran 1 (fire 0 waiting)) ≤ work waiting)
    × (((q : DebouncedQueue) × Turn never_emptied (ran 1 (fire 0 waiting)) q)
        ⊎ IsStopping work_queue same_text
            (λ s. none)
            9
            no_answer
            (record service { queue = ran 1 (fire 0 waiting) }))
stop_ends_example =
    stop_ends work_queue same_text (λ s. none) 9 no_answer (record service { queue = waiting })
      waiting-IsCounted waiting-running ends

abbrev begun : Service
begun = operate work_queue (add_model_validation same_text mv) new_service

abbrev begun_info : ModelValidationInfo
begun_info = new_model_validation_info "demo" (get_config_hash same_text mv) "public-key" 1

begun_error : (update same_text (λ _. none) 9 key mv begun.tracker).error ≡ none
unfolding do_update_status Map.get string_eq add_model_validation new_status_tracker Map.put key_eq
    new_model_validation_info get_config_hash auth_method status_equal nat_eq validation_config_hash
    validation_config_text Map.values sort_slice collect_pod_tracking_info compare_pod_slices
    new_status less_text operate deliver new_service
begun_error = refl

Reach-IsCurrent_example :
    IsCurrent begun_info (status_after same_text (λ _. none) 9 key mv begun.tracker)
unfolding Map.get add_model_validation new_status_tracker Map.put key_eq new_service operate
    new_model_validation_info get_config_hash auth_method deliver
Reach-IsCurrent_example =
    Reach-IsCurrent work_queue same_text listed (λ _. none) 9 key mv begun_info
      (next start (mv_added mv)) refl begun_error
