-- ===== src/Rankmt/Protocol/Tests.antt =====
-- A run in which a model gets a GPU and gives it back.
use nexuslb.Prelude.{true, refl, ◌+◌, ◌≡◌, List, [], ◌∷◌, ok}
use nexuslb.Rankmt.{ExecutionCandidate, epoch}
use nexuslb.Rankmt.RankThread.Tests.{latencies}
use nexuslb.Rankmt.Protocol.{
  Event, backend_added, model_added, candidate_updated, plan_timer_fired, candidate_posted,
  grant_taken, command_queued, resume_posted, System, start, run, take_granted, enqueue_command,
  new_rank_thread, all_allowed,
}
use nexuslb.Rankmt.Protocol.Turns.{IsSafe}
use nexuslb.Rankmt.Protocol.Safe.{run-IsSafe}
use nexuslb.Rankmt.RankThread.State.{find_gpu, model_at, set_gpu, set_model}
use nexuslb.Rankmt.RankThread.Control.{
  add_backend, add_model_thread, add_gpu, add_gpus, find_backend, put_model, resize,
}
use nexuslb.Rankmt.RankThread.Handlers.{
  post_execution_candidate, do_update_candidate, on_plan_timer, post_resume_candidate_update,
  apply_candidate, assign_gpu, grant_gpu_to_model, grant_model, post_granted_gpu, setup_active_plan,
  take_messages, try_plan, update_gpu,
}
use nexuslb.Splay.Map.{
  size, get_by_rank, contains_key, descend, insert_node, nth, remove, upsert, remove_node,
  remove_root, root_value,
}
use nexuslb.Splay.Tree.{
  splay_node, attach, locate, node_size, plug, splay_loop, splay_step, update_node_size,
}

abbrev in_window : ExecutionCandidate
in_window = record { exec_at = epoch + 5000; invalid_after = epoch + 7000 }

abbrev one_round : List Event
one_round =
    backend_added 0 (3 ∷ [])
    ∷ model_added 0
    ∷ candidate_posted 0 in_window
    ∷ candidate_updated epoch 0
    ∷ plan_timer_fired epoch 0
    ∷ candidate_posted 0 in_window
    ∷ grant_taken 0
    ∷ command_queued 0 (epoch + 6000)
    ∷ resume_posted 0
    ∷ candidate_posted 0 in_window
    ∷ []

one_round_allowed : all_allowed one_round (start latencies) ≡ true
unfolding start find_gpu model_at set_gpu set_model add_backend add_model_thread add_gpu add_gpus
    find_backend put_model resize post_execution_candidate do_update_candidate on_plan_timer
    post_resume_candidate_update apply_candidate assign_gpu grant_gpu_to_model grant_model
    post_granted_gpu setup_active_plan take_messages try_plan update_gpu size get_by_rank
    contains_key descend insert_node nth remove upsert remove_node remove_root root_value splay_node
    attach locate node_size plug splay_loop splay_step update_node_size take_granted enqueue_command
    new_rank_thread
one_round_allowed = refl

run-IsSafe_example : (w : System) × (run one_round (start latencies) ≡ ok w) × IsSafe w
run-IsSafe_example = run-IsSafe latencies one_round one_round_allowed
